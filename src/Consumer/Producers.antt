-- ===== src/Consumer/Producers.antt =====
-- `set_producer` and `remove_producer`, with `add_consumer` and `remove_consumer` of the listener, on
-- all consumers and listeners of a program at once.
use sednl.Base.{ℕ, Bool, Option, none, some, [], ◌∷◌, ◌++◌, if◌then◌else◌}
use sednl.Exceptions.{EventExceptionT, event_consumer_running, M, ok, thrown, fault, aborted, ◌>>◌}
use sednl.Listener.Attach.{World, update, contains, erase}

-- In `managed`, the consumers of a listener, its `m_consumers`; in `m_listener`, the `m_producer` of a
-- consumer; in `m_running`, whether a listener runs. `consumes` is the `m_running` of the consumers.
pub record Parties : Type 0 where
  pub world : World
  pub consumes : ℕ → Bool

abbrev pub Setting : Type 0
Setting = M EventExceptionT Parties (Unit {0})

-- Both are `noexcept`, so that the exception that they throw while the listener runs ends the program.
unfoldable pub remove_consumer : ℕ → ℕ → Setting
unfolding contains erase
remove_consumer this c p =
    if p.world.m_running this
    then fault aborted
    else if contains (p.world.managed this) c
    then ok tt (record p {
      world = record p.world {
        managed = update p.world.managed this (erase (p.world.managed this) c);
      };
    })
    else ok tt p

unfoldable pub add_consumer : ℕ → ℕ → Setting
unfolding contains
add_consumer this c p =
    if p.world.m_running this
    then fault aborted
    else if contains (p.world.managed this) c
    then ok tt p
    else ok tt (record p {
      world = record p.world {
        managed = update p.world.managed this (p.world.managed this ++ (c ∷ []));
      };
    })

-- `m_producer = producer`.
unfoldable pub point_to : ℕ → Option ℕ → Setting
point_to c producer p =
    ok tt
      (record p { world = record p.world { m_listener = update p.world.m_listener c producer } })

-- `if (m_producer) { m_producer->remove_consumer(this); m_producer = nullptr; }`
unfoldable pub leave_producer : ℕ → Setting
unfolding remove_consumer point_to
leave_producer c p = elim (p.world.m_listener c) [
  | none ↦ ok tt p
  | some l ↦ (remove_consumer l c >> point_to c none) p
]

-- `noexcept`, too.
unfoldable pub remove_producer : ℕ → Setting
unfolding leave_producer
remove_producer c p = if p.consumes c then fault aborted else leave_producer c p

unfoldable pub set_producer : ℕ → ℕ → Setting
unfolding leave_producer add_consumer point_to
set_producer c l p =
    if p.consumes c
    then thrown event_consumer_running p
    else (leave_producer c >> (add_consumer l c >> point_to c (some l))) p
