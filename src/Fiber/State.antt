-- ===== src/Fiber/State.antt =====
-- `Fiber::State`.
use fxk.Base.{Bool, true, false}

pub data State : Type 0 where
  init hold exec term ready except : State

abbrev pub is_exec : State → Bool
is_exec exec = true
is_exec _ = false

abbrev pub is_ready : State → Bool
is_ready ready = true
is_ready _ = false

abbrev pub is_term : State → Bool
is_term term = true
is_term _ = false

-- `state == TERM || state == EXCEPT`.
abbrev pub is_over : State → Bool
is_over term = true
is_over except = true
is_over _ = false

abbrev pub is_init : State → Bool
is_init init = true
is_init _ = false
