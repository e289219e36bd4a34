-- ===== src/Consumer/Slots.antt =====
-- `Slot` and the slots of an `EventConsumer`. A callback is named by its address.
use sednl.Base.{
  ℕ, Bool, true, false, Option, none, some, [], ◌∷◌, if◌then◌else◌, Map, Name, find, assign,
  same_name,
}

-- `container`, a `std::function` that may be empty.
abbrev pub Slot : Type 0
Slot = Option ℕ

-- `set_function`.
abbrev pub set_function : ℕ → Slot → Slot
set_function f slot = some f

-- `reset`.
abbrev pub reset_slot : Slot → Slot
reset_slot slot = none

-- `operator bool`.
abbrev pub is_set : Slot → Bool
is_set none = false
is_set (some f) = true

-- The source keeps `m_slots` in a hash table, whose order is not determined; the model's is that
-- of the names.
pub record EventConsumer : Type 0 where
  pub m_slots : Map Slot
  pub m_on_disconnect_slot : Slot
  pub m_on_server_disconnect_slot : Slot
  pub m_on_event_slot : Slot

-- `bind`, which makes an empty slot if the name has none.
unfoldable pub bind : Name → EventConsumer → EventConsumer
bind event_name c = elim (find c.m_slots event_name) [
  | some slot ↦ c
  | none ↦ record c { m_slots = assign c.m_slots event_name none }
]

-- `bind(event_name).set_function(f)` and `bind(event_name).reset()`, by the slot that they leave.
unfoldable pub bind_slot : Name → Slot → EventConsumer → EventConsumer
bind_slot event_name slot c = record c { m_slots = assign c.m_slots event_name slot }

unfoldable pub clean : Map Slot → Map Slot
clean [] = []
clean ((name, slot) ∷ slots) =
    let rest = clean slots in if is_set slot then (name, slot) ∷ rest else rest

-- `clean_slots`, and so `run_init`.
unfoldable pub clean_slots : EventConsumer → EventConsumer
unfolding clean
clean_slots c = record c { m_slots = clean c.m_slots }

-- The first slot of the name that is set. A name has one slot at most.
unfoldable pub slot_for : Map Slot → Name → Slot
unfolding same_name
slot_for [] name = none
slot_for ((l, none) ∷ slots) name = slot_for slots name
slot_for ((l, some f) ∷ slots) name = if same_name l name then some f else slot_for slots name
