-- ===== src/Receiver/Persistent/Pausing.antt =====
-- Pause and Resume of internal/impl/receiver/persistent_message_receiver_impl.go, and the loop of
-- `run` that they hold up, over any number of callers.
use pubsubplus_go_client.Prelude.{
  ℕ, zero, suc, ◌≡◌, refl, Bool, true, false, List, [], ◌∷◌, if◌then◌else◌, arith,
}

-- Where `run` stands: at the top of its loop, in the wait for the end of a pause, in the wait for a
-- message.
pub data Loop : Type 0 where
  top waiting receiving : Loop

-- The flag, the two channels of size 1 with whether they hold something, the loop, and how many calls
-- of Pause are before their store and before their interrupt, and of Resume before their store and
-- before their notification.
pub record Pausing : Type 0 where
  pub do_pause : Bool
  pub do_unpause : Bool
  pub pause_interrupt : Bool
  pub loop : Loop
  pub pausing : ℕ
  pub interrupting : ℕ
  pub resuming : ℕ
  pub notifying : ℕ

abbrev pub unpaused : Pausing
unpaused = record {
  do_pause = false;
  do_unpause = false;
  pause_interrupt = false;
  loop = top;
  pausing = 0;
  interrupting = 0;
  resuming = 0;
  notifying = 0;
}

abbrev pause_store : ℕ → Pausing → Pausing
pause_store zero s = s
pause_store (suc n) s = record s { do_pause = true; pausing = n; interrupting = suc s.interrupting }

abbrev pause_queue : ℕ → Pausing → Pausing
pause_queue zero s = s
pause_queue (suc n) s = record s { pause_interrupt = true; interrupting = n }

pub data PauseStep : Type 0 where
  drains stores interrupts : PauseStep

-- `Pause`, past the test of the state: the unpause event is drained, the flag set, the interrupt queued.
unfoldable pub pause : PauseStep → Pausing → Pausing
pause drains s = record s { do_unpause = false; pausing = suc s.pausing }
pause stores s = pause_store s.pausing s
pause interrupts s = pause_queue s.interrupting s

abbrev resume_store : ℕ → Pausing → Pausing
resume_store zero s = s
resume_store (suc n) s = record s { do_pause = false; resuming = n; notifying = suc s.notifying }

abbrev resume_notify : ℕ → Pausing → Pausing
resume_notify zero s = s
resume_notify (suc n) s = record s { do_unpause = true; notifying = n }

pub data ResumeStep : Type 0 where
  drains stores notifies : ResumeStep

-- `Resume`, past the test of the state: the interrupt is drained, the flag cleared, the end notified.
unfoldable pub resume : ResumeStep → Pausing → Pausing
resume drains s = record s { pause_interrupt = false; resuming = suc s.resuming }
resume stores s = resume_store s.resuming s
resume notifies s = resume_notify s.notifying s

-- `run`, without its ends: `is_message` is the choice between a message and an interrupt.
abbrev loop_step : Loop → Bool → Pausing → Pausing
loop_step top is_message s = record s { loop = if s.do_pause then waiting else receiving }
loop_step waiting is_message s =
    if s.do_unpause then record s { do_unpause = false; loop = receiving } else s
loop_step receiving is_message s =
    if is_message
    then record s { loop = top }
    else if s.pause_interrupt
    then record s { pause_interrupt = false; loop = top }
    else s

unfoldable pub run_loop : Bool → Pausing → Pausing
run_loop is_message s = loop_step s.loop is_message s

pub data Op : Type 0 where
  pauses : PauseStep → Op
  resumes : ResumeStep → Op
  loops : Bool → Op

unfoldable pub step : Op → Pausing → Pausing
unfolding pause resume run_loop
step (pauses p) s = pause p s
step (resumes r) s = resume r s
step (loops is_message) s = run_loop is_message s

unfoldable pub run : List Op → Pausing → Pausing
run [] s = s
run (op ∷ ops) s = run ops (step op s)

-- The loop will be woken: there is something to wake it, or a call that will.
abbrev Woken : Pausing → Type 0
Woken s =
    s.do_pause ≡ false → s.loop ≡ waiting → s.pausing ≡ 0 → s.notifying ≡ 0 → s.do_unpause ≡ true

loop_step-Woken :
    (l : Loop) (m : Bool) (s : Pausing) → s.loop ≡ l → Woken s → Woken (loop_step l m s)
loop_step-Woken top m s h w = ground arith
loop_step-Woken waiting m s h w = ground arith
loop_step-Woken receiving m s h w = ground arith

counted-Woken :
    (s : Pausing) (n : ℕ)
    → Woken s
    → (s.pausing ≡ n → Woken (pause_store n s))
      × (Woken (pause_queue n s))
      × (s.resuming ≡ n → Woken (resume_store n s))
      × (s.notifying ≡ n → Woken (resume_notify n s))
counted-Woken s zero w = (λ h. w, w, λ h. w, λ h. w)
counted-Woken s (suc n) w = (λ h. ground arith, ground arith, λ h. ground arith, λ h. ground arith)

step-Woken : (op : Op) (s : Pausing) → Woken s → Woken (step op s)
unfolding step
step-Woken (pauses PauseStep.drains) s w = ground arith
step-Woken (pauses stores) s w = (counted-Woken s s.pausing w).0 refl
step-Woken (pauses interrupts) s w = (counted-Woken s s.interrupting w).1
step-Woken (resumes ResumeStep.drains) s w = ground arith
step-Woken (resumes stores) s w = (counted-Woken s s.resuming w).2 refl
step-Woken (resumes notifies) s w = (counted-Woken s s.notifying w).3 refl
step-Woken (loops m) s w = loop_step-Woken s.loop m s refl w

run-keeps_Woken : (ops : List Op) (s : Pausing) → Woken s → Woken (run ops s)
unfolding run
run-keeps_Woken [] s w = w
run-keeps_Woken (op ∷ ops) s w = run-keeps_Woken ops (step op s) (step-Woken op s w)

-- Whatever calls of Pause and Resume come together: once the flag is clear and no call is between its
-- two steps on the flag and the unpause channel, a loop that waits for the end of the pause finds the
-- event that ends its wait.
pub run-wakes :
    (ops : List Op)
    → let s = run ops unpaused in
      s.do_pause ≡ false
      → s.loop ≡ waiting
      → s.pausing ≡ 0
      → s.notifying ≡ 0
      → (run_loop false s).loop ≡ receiving
unfolding run_loop
run-wakes ops h l p n =
    let w = run-keeps_Woken ops unpaused (λ a b c d. cc) in
    let ready : (run ops unpaused).do_unpause ≡ true = w h l p n in rw (l, ready)
