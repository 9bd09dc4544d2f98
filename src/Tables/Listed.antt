-- ===== src/Tables/Listed.antt =====
-- A table that meets the laws: a slot for each key.
use relaydock.Prelude.{ℕ, ◌≡◌, ap, Bool, true, false, none, some, Option-cases, inl, inr, arith}
use relaydock.Tables.{RowTable}
use relaydock.Tables.Slots.{
  Slots, slot, first_slot, slots_from, count_slots, update_slots, delete_slots, place, clashes,
  create_slot,
}
use relaydock.Tables.Slots.Points.{
  slot-place, slot-update, slot-delete, clashes-slot, clashes_found,
}
use relaydock.Tables.Slots.Counts.{
  count-place, count-update, count-delete, count-at, count_nothing, count_something,
}
use relaydock.Tables.Slots.Lists.{slots_from-rows, slots_from-zero}
use relaydock.Tables.Slots.First.{first_slot-some, first_slot-none}

module _ {Row : Type 0} where
  module _ (clash : Row → Row → Bool) (db : Slots Row) (id : ℕ) (row : Row) where
    pub create_slot-some :
        (db' : Slots Row)
        → create_slot clash db id row ≡ some db'
        → (slot db id ≡ none) × (clashes clash row db ≡ false) × (db' ≡ place db id row)
    unfolding create_slot
    create_slot-some db' e = elim (Option-cases (slot db id)) [
      | inl free ↦ (free, ground arith, ground arith)
      | inr (r, taken) ↦ absurd (ground arith)
    ]

    pub create_slot-none :
        create_slot clash db id row ≡ none → slot db id ≡ none → clashes clash row db ≡ true
    unfolding create_slot
    create_slot-none e free = ground arith

  unfoldable pub listed_rows : (clash : Row → Row → Bool) → RowTable clash (Slots Row)
  listed_rows clash = record {
    find = slot;
    find_first = first_slot;
    find_many = slots_from 0;
    count = count_slots;
    update_many = update_slots;
    delete_many = delete_slots;
    create = create_slot clash;
    find_first-some =
        λ db p by k r e. ((first_slot-some db p by k r e).0, (first_slot-some db p by k r e).1);
    find_first-le = λ db p by k r j s e. (first_slot-some db p by k r e).2 j s;
    find_first-none = λ db p by j s e. first_slot-none db p by e j s;
    find_many-rows = λ db p. slots_from-rows db p 0 db (λ j. ap (slot db) (omega arith));
    find_many-all = slots_from-zero;
    find-update_many = slot-update;
    find-delete_many = slot-delete;
    find-create =
        λ db db' id row j e. rw (create_slot-some clash db id row db' e).2 (slot-place db id row j);
    create_fresh = λ db db' id row e. (create_slot-some clash db id row db' e).0;
    create_unique = λ db db' id row j s e.
        clashes-slot clash row db j s (create_slot-some clash db id row db' e).1;
    create_refused =
        λ db id row e free. clashes_found clash row db (create_slot-none clash db id row e free);
    count-create = λ db db' id row p e.
        let made = create_slot-some clash db id row db' e in
        rw made.2 (count-place db id row p made.0);
    count-update_many = count-update;
    count-delete_many = count-delete;
    count-key = count-at;
    count_zero = count_nothing;
    count_pos = count_something;
  }
