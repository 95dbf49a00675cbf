-- ===== src/Nmt/Machine.antt =====
-- core/src/nmt.rs: the state of a node from everything that has happened to it.
use canopen_rs.Base.{◌≡◌, ◌≢◌, ◌↔◌, refl, List, [], ◌∷◌, arith}
use canopen_rs.Nmt.{
  NmtState, initialising, stopped, operational, pre_operational, NmtCommand, start_remote_node,
  stop_remote_node, enter_pre_operational, reset_node, reset_communication, NmtStateMachine, new,
  boot, next, apply,
}

-- A node finishes its initialisation by itself, or it gets a command.
pub data Event : Type 0 where
  boots : Event
  gets : NmtCommand → Event

-- The machine after a history, the newest event first.
unfoldable pub after : List Event → NmtStateMachine
after [] = new
after (boots ∷ history) = boot (after history)
after (gets command ∷ history) = apply (after history) command

abbrev IsReset : NmtCommand → Type 0
IsReset reset_node = Unit
IsReset reset_communication = Unit
IsReset _ = ⊥

-- The node has booted since its last reset.
abbrev pub IsUp : List Event → Type 0
IsUp [] = ⊥
IsUp (boots ∷ history) = Unit
IsUp (gets reset_node ∷ history) = ⊥
IsUp (gets reset_communication ∷ history) = ⊥
IsUp (gets _ ∷ history) = IsUp history

-- The last command of a node that is up was to start; booting once more does not count.
abbrev pub IsStarted : List Event → Type 0
IsStarted [] = ⊥
IsStarted (boots ∷ history) = IsStarted history
IsStarted (gets start_remote_node ∷ history) = IsUp history
IsStarted (gets _ ∷ history) = ⊥

boot-IsUp : (s : NmtState) → (boot (record { state = s })).state ≢ initialising
unfolding boot
boot-IsUp initialising e = absurd (ground arith)
boot-IsUp stopped e = absurd (ground arith)
boot-IsUp operational e = absurd (ground arith)
boot-IsUp pre_operational e = absurd (ground arith)

boot-operational :
    (s : NmtState) → ((boot (record { state = s })).state ≡ operational) ↔ (s ≡ operational)
unfolding boot
boot-operational initialising = (ground arith, ground arith)
boot-operational stopped = (λ e. e, λ e. e)
boot-operational operational = (λ e. e, λ e. e)
boot-operational pre_operational = (λ e. e, λ e. e)

next-initialising :
    (command : NmtCommand) (s : NmtState)
    → ¬ IsReset command
    → (next s command ≡ initialising) ↔ (s ≡ initialising)
unfolding next
next-initialising reset_node _ h = absurd (h tt)
next-initialising reset_communication _ h = absurd (h tt)
next-initialising start_remote_node initialising _ = (λ e. e, λ e. e)
next-initialising stop_remote_node initialising _ = (λ e. e, λ e. e)
next-initialising enter_pre_operational initialising _ = (λ e. e, λ e. e)
next-initialising _ _ _ = (ground arith, ground arith)

next_keeps :
    (command : NmtCommand) (history : List Event)
    → ¬ IsReset command
    → ((after history).state ≢ initialising) ↔ IsUp history
    → (next (after history).state command ≢ initialising) ↔ IsUp history
next_keeps command history h ih =
    let same = next-initialising command (after history).state h in
    (λ up. ih.0 (λ e. up (same.1 e)), λ up e. ih.1 up (same.0 e))

next-started : (s : NmtState) → (next s start_remote_node ≡ operational) ↔ (s ≢ initialising)
unfolding next
next-started initialising = (λ e. absurd (ground arith), λ up. absurd (up refl))
next-started stopped = (λ _ e. absurd (ground arith), λ _. refl)
next-started operational = (λ _ e. absurd (ground arith), λ _. refl)
next-started pre_operational = (λ _ e. absurd (ground arith), λ _. refl)

next-not_started :
    (command : NmtCommand) (s : NmtState)
    → command ≢ start_remote_node
    → next s command ≢ operational
unfolding next
next-not_started start_remote_node s h = absurd (h refl)
next-not_started _ initialising h = λ e. absurd (ground arith)
next-not_started _ _ h = λ e. absurd (ground arith)

-- A node has left its initialisation exactly when it has booted since its last reset.
pub after-IsUp_iff : (history : List Event) → ((after history).state ≢ initialising) ↔ IsUp history
unfolding after new apply next
after-IsUp_iff [] = (λ up. up refl, λ up. absurd up)
after-IsUp_iff (boots ∷ history) = (λ _. tt, λ _. boot-IsUp (after history).state)
after-IsUp_iff (gets reset_node ∷ history) = (λ up. up refl, λ up. absurd up)
after-IsUp_iff (gets reset_communication ∷ history) = (λ up. up refl, λ up. absurd up)
after-IsUp_iff (gets start_remote_node ∷ history) =
    next_keeps start_remote_node history (λ r. r) (after-IsUp_iff history)
after-IsUp_iff (gets stop_remote_node ∷ history) =
    next_keeps stop_remote_node history (λ r. r) (after-IsUp_iff history)
after-IsUp_iff (gets enter_pre_operational ∷ history) =
    next_keeps enter_pre_operational history (λ r. r) (after-IsUp_iff history)

-- A node is operational exactly when the last command since its boot was to start.
pub after-IsStarted_iff :
    (history : List Event) → ((after history).state ≡ operational) ↔ IsStarted history
unfolding after new apply next
after-IsStarted_iff [] = (λ e. absurd (ground arith), λ up. absurd up)
after-IsStarted_iff (boots ∷ history) =
    let same = boot-operational (after history).state in
    let ih = after-IsStarted_iff history in (λ e. ih.0 (same.0 e), λ up. same.1 (ih.1 up))
after-IsStarted_iff (gets start_remote_node ∷ history) =
    let same = next-started (after history).state in
    let up = after-IsUp_iff history in (λ e. up.0 (same.0 e), λ u. same.1 (up.1 u))
after-IsStarted_iff (gets command ∷ history) =
    let other = next-not_started command (after history).state in
    (λ e. other (λ c. absurd (ground arith)) e, λ no. absurd no)
