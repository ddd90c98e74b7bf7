-- ===== src/Server/Events/Tests.antt =====
-- Concrete sessions. JSON values are numbers here.
use darkpyonix_ember.Base.{ℕ, ◌≡◌, refl, List, [], ◌∷◌}
use darkpyonix_ember.Server.Events.{
  AgentEvent, idle, running, after, approval_requested, approval_resolved, allow_once, notice,
}
use darkpyonix_ember.Server.Events.Status.{after_all}

-- Two approvals are asked for, and one is answered.
abbrev one_answered : List (AgentEvent ℕ)
one_answered =
    approval_requested "a" "Bash" 0
    ∷ approval_requested "b" "Bash" 0
    ∷ approval_resolved "a" allow_once
    ∷ notice "n"
    ∷ []

-- The second one still waits.
counts_as_running : after_all idle one_answered ≡ running
unfolding after_all after
counts_as_running = refl
