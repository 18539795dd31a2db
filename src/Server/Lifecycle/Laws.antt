-- ===== src/Server/Lifecycle/Laws.antt =====
-- How the calls of the server driver stand.
use sgtm.Common.{◌≡◌, refl, ap, ◌∙◌, Bool, true, false, inl, inr, none, some, List, [], ◌∷◌}
use sgtm.Server.Lifecycle.{
  ServerDriver, new_driver, prepare_start_server, with_lock, start_locked, start_server,
  close_locked, close_server, address_locked, server_listener_addr, Call, start, close, ask_address,
  after, how_far, returned, waiting, counted, call, returns, fails, with_the_lock, up_to_failure,
}

with_lock-free :
    {A : Type 0} (f : ServerDriver → A × ServerDriver) (s : ServerDriver)
    → s.locked ≡ false
    → with_lock f s ≡ some (f (record s { locked = true }))
unfolding with_lock
with_lock-free f s h = rw h refl

waits : (c : Call) (s : ServerDriver) → s.locked ≡ true → call c s ≡ none
unfolding call start_server close_server server_listener_addr with_lock
waits (start listen http_error group) s h = rw h refl
waits close s h = rw h refl
waits ask_address s h = rw h refl

gets_lock :
    (c : Call) (s : ServerDriver)
    → s.locked ≡ false
    → (s' : ServerDriver) × (call c s ≡ some (with_the_lock c, s')) × (s'.locked ≡ fails c)
unfolding call start_server close_server server_listener_addr prepare_start_server
gets_lock (start (inl e) http_error group) s h =
    (_, ap (after how_far) (with_lock-free (start_locked (inl e) http_error group) s h), refl)
gets_lock (start (inr a) (some e) group) s h =
    (_, ap (after how_far) (with_lock-free (start_locked (inr a) (some e) group) s h), refl)
gets_lock (start (inr a) none none) s h =
    (_, ap (after how_far) (with_lock-free (start_locked (inr a) none none) s h), refl)
gets_lock (start (inr a) none (some result)) s h =
    (_, ap (after how_far) (with_lock-free (start_locked (inr a) none (some result)) s h), refl)
gets_lock close s h = (_, ap (after (λ _. returned)) (with_lock-free close_locked s h), refl)
gets_lock ask_address s h =
    (_, ap (after (λ _. returned)) (with_lock-free address_locked s h), refl)

returns-locked :
    (cs : List Call) (s : ServerDriver) (b : Bool)
    → s.locked ≡ b
    → returns cs s ≡ up_to_failure b cs
unfolding returns up_to_failure
returns-locked [] s b h = refl
returns-locked (c ∷ cs) s true h =
    ap (λ o. counted o (λ s'. returns cs s') s) (waits c s h)
    ∙ ap (λ bs. waiting ∷ bs) (returns-locked cs s true h)
returns-locked (c ∷ cs) s false h =
    let (s', made, locked) = gets_lock c s h in
    ap (λ o. counted o (λ s'. returns cs s') s) made
    ∙ ap (λ bs. with_the_lock c ∷ bs) (returns-locked cs s' (fails c) locked)

-- Of calls of `StartServer`, `CloseServer` and `ServerListenerAddr` that are made one after the
-- other from threads of their own, each one up to the first start that fails gets the lock: a close
-- and a question for the address return; a start runs the server until the run group ends, which it
-- may never do, and returns what the group gives; the start that fails returns its error. Every call
-- behind it waits for ever, because a start that fails keeps the lock.
pub returns-up_to_failure : (cs : List Call) → returns cs new_driver ≡ up_to_failure false cs
returns-up_to_failure cs = returns-locked cs new_driver false refl
