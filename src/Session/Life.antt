-- ===== src/Session/Life.antt =====
-- The life cycle: what a close does to a session, and that it happens once.
use server_application.Common.{◌≡◌, ◌⊎◌, false, none, some, arith}
use server_application.Session.{
  Session, LifeState, idle, active, closed_life, closed_state, begin_close,
}

-- The states from which a close is accepted.
abbrev pub IsOpen : LifeState → Type 0
IsOpen l = (l ≡ idle) ⊎ (l ≡ active)

-- A close that was accepted leaves the session Closed with its socket and login timer gone, and a
-- second close before cleanup is refused.
begin_close_once :
    (s t : Session)
    → begin_close s ≡ some t
    → IsOpen s.life
      × (t.life ≡ closed_life)
      × (t.state ≡ closed_state)
      × (t.socket_open ≡ false)
      × (t.login_timer_armed ≡ false)
      × (begin_close t ≡ none)
unfolding begin_close
begin_close_once s t e = ground arith
