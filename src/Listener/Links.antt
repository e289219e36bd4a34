-- ===== src/Listener/Links.antt =====
-- `clear_consumer_links`, `link_consumer` and `run_init`: which consumer hears of which events.
-- Consumers are named by the addresses of their descriptors.
use sednl.Base.{
  ℕ, Bool, Option, none, some, List, [], ◌∷◌, if◌then◌else◌, ◌&&◌, not, Map, Name, find, assign,
  at_or,
}
use sednl.Exceptions.{
  EventExceptionT, event_collision, poller_add_failed, poller_create_failed, M, ok, thrown, ◌>>◌,
}
use sednl.Consumer.Slots.{Slot, EventConsumer}

pub record Links : Type 0 where
  pub m_on_disconnect_link : Option ℕ
  pub m_on_server_disconnect_link : Option ℕ
  pub m_on_event_link : Option ℕ
  pub m_links : Map (Option ℕ)

unfoldable pub clear_consumer_links : Links → Links
clear_consumer_links s = record {
  m_on_disconnect_link = none;
  m_on_server_disconnect_link = none;
  m_on_event_link = none;
  m_links = [];
}

-- What `link_consumer` gets a reference to.
pub data Link : Type 0 where
  on_disconnect on_server_disconnect on_event : Link
  named : Name → Link

unfoldable pub link_in : Link → Links → Option ℕ
unfolding find
link_in on_disconnect s = s.m_on_disconnect_link
link_in on_server_disconnect s = s.m_on_server_disconnect_link
link_in on_event s = s.m_on_event_link
link_in (named name) s = at_or none s.m_links name

unfoldable pub set_link : Link → Option ℕ → Links → Links
unfolding assign
set_link on_disconnect l s = record s { m_on_disconnect_link = l }
set_link on_server_disconnect l s = record s { m_on_server_disconnect_link = l }
set_link on_event l s = record s { m_on_event_link = l }
set_link (named name) l s = record s { m_links = assign s.m_links name l }

abbrev pub Linking : Type 0
Linking = M EventExceptionT Links (Unit {0})

-- The reference `m_links[name]` makes a null link if the name has none.
unfoldable pub link_consumer : ℕ → Slot → Link → Linking
unfolding link_in set_link clear_consumer_links
link_consumer consumer none link s = ok tt (set_link link (link_in link s) s)
link_consumer consumer (some f) link s = elim (link_in link s) [
  | some other ↦ thrown event_collision (clear_consumer_links s)
  | none ↦ ok tt (set_link link (some consumer) s)
]

-- The loop over a consumer's slots.
unfoldable pub link_slots : ℕ → Map Slot → Linking
unfolding link_consumer
link_slots consumer [] = λ s. ok tt s
link_slots consumer ((name, slot) ∷ slots) =
    link_consumer consumer slot (named name) >> link_slots consumer slots

-- The loop over the consumers.
unfoldable pub link_consumers : List (ℕ × EventConsumer) → Linking
unfolding link_slots
link_consumers [] = λ s. ok tt s
link_consumers ((consumer, c) ∷ consumers) =
    link_consumer consumer c.m_on_disconnect_slot on_disconnect
    >> (link_consumer consumer c.m_on_server_disconnect_slot on_server_disconnect
        >> (link_consumer consumer c.m_on_event_slot on_event
            >> (link_slots consumer c.m_slots >> link_consumers consumers)))

-- `new Poller`.
unfoldable pub create_poller : Bool → Linking
create_poller created s = if created then ok tt s else thrown poller_create_failed s

-- `if(x->is_connected() && !poller->add_fd(x->m_fd))` for each server or connection, by whether it
-- is connected and its descriptor. `add_fd` is the poller's.
unfoldable pub register : (ℕ → Bool) → List (Bool × ℕ) → Linking
register add_fd [] = λ s. ok tt s
register add_fd ((connected, fd) ∷ list) =
    if connected && not (add_fd fd) then (λ s. thrown poller_add_failed s) else register add_fd list

-- `created` tells whether `epoll_create` succeeds for the new poller.
unfoldable pub run_init :
    Bool → (ℕ → Bool) → List (Bool × ℕ) → List (Bool × ℕ) → List (ℕ × EventConsumer) → Linking
unfolding create_poller register link_consumers
run_init created add_fd servers connections consumers =
    create_poller created
    >> (register add_fd servers >> (register add_fd connections >> link_consumers consumers))
