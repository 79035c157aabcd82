-- ===== src/Socks/Machine.antt =====
-- The context under all its events, as a step relation, and what holds whatever their order.
use smithproxy.Base.{
  ℕ, Text, not, if-keeps, length, ltb, ◌≡◌, refl, sym, ◌∙◌, ◌≢◌, ◌⊎◌, inl, inr, Bool, true, false,
  List, Option, arith, ◌==◌, if◌then◌else◌, Bool-cases,
}
use mathlib.Core.Path.{subst}
use smithproxy.Base.Int.{ℤ, pos, leb_ℤ}
use smithproxy.Base.Outcome
use smithproxy.Base.Bytes.{IsBuffers}
use smithproxy.Dns.{Packet}
use smithproxy.Socks.{
  Cx, Env, Ended, done, raised, undefined, Verdict, pending, accept, reject, State, init,
  wait_request, policy_received, reqres_sent, dns_resp_failed, handoff, zombie,
}
use smithproxy.Socks.Request.{is_empty}
use smithproxy.Socks.Connect.{process_in, process_in_state}
use smithproxy.Socks.Reply.{
  give_verdict, answer_verdict, process_socks_reply, process_socks_reply_v4, process_socks_reply_v5,
  write_response, associate, is_accept,
}
use smithproxy.Socks.Events.{
  pre_write, pre_write_in, hand_off, retry_dns, dns_response_callback, watch_socket, process_out,
  process_socks_response, rank,
}
use smithproxy.Policy.Rule.{sock_dgram}
use smithproxy.Socks.Progress.{IsEarly, Fine, fine_done, fine_raised, Fine->>=}
use smithproxy.Socks.Safety.{dns_response-Fine, setup_dns-IsEarly}
use smithproxy.Socks.Input.{Safe, safe_done, safe_raised, process_in-Safe}

-- One event: a call on the context that returns, or what others do with it. The system may put
-- other bytes into the buffers between two calls; the proxy gives a verdict other than `pending`,
-- after which it lets a datagram's context go at once; it lets a context go that waits for the
-- hand-off, takes the context that is prepared for the server, and calls error(true).
pub data Step (env : Env) (cx : Cx) (cx' : Cx) : Type 0 where
  moves_bytes : (r w : List ℕ) → cx' ≡ record cx { readbuf = r; writebuf = w } → Step env cx cx'
  reads_input : (n : ℕ) → process_in env cx ≡ done (n, cx') → Step env cx cx'
  judged :
      (v : Verdict) (n : ℕ) → v ≢ pending → give_verdict env v cx ≡ done (n, cx') → Step env cx cx'
  writes : cx' ≡ pre_write env cx → Step env cx cx'
  resolved :
      (r : Option Packet) (red : ℤ) (b : Bool)
      → dns_response_callback env r red cx ≡ done (b, cx')
      → Step env cx cx'
  sends : cx' ≡ (process_out cx).1 → Step env cx cx'
  retires : cx.state ≡ handoff → cx' ≡ record cx { state = zombie } → Step env cx cx'
  judged_datagram :
      (v : Verdict) (n : ℕ) (given : Cx)
      → v ≢ pending
      → give_verdict env v cx ≡ done (n, given)
      → cx' ≡ record given { state = zombie }
      → Step env cx cx'
  releases : cx' ≡ record cx { right = Option.none } → Step env cx cx'
  fails : cx' ≡ record cx { in_error = true } → Step env cx cx'

pub data Reach (env : Env) (cx : Cx) : Cx → Type 0 where
  here : Reach env cx cx
  next : {a b : Cx} → Reach env cx a → Step env a b → Reach env cx b

pub IsEarly-cases : (s : State) → IsEarly s ⊎ (¬ IsEarly s)
IsEarly-cases policy_received = inr (λ h. h)
IsEarly-cases reqres_sent = inr (λ h. h)
IsEarly-cases handoff = inr (λ h. h)
IsEarly-cases zombie = inr (λ h. h)
IsEarly-cases s = inl tt

-- Before the verdict, or with a verdict.
abbrev pub Judged : Cx → Type 0
Judged cx = IsEarly cx.state ⊎ (cx.verdict ≢ pending)

reply-verdict :
    (cx cx' : Cx) (n : ℕ) → process_socks_reply cx ≡ done (n, cx') → cx'.verdict ≡ cx.verdict
unfolding process_socks_reply process_socks_reply_v4 process_socks_reply_v5 write_response
reply-verdict cx cx' n e = ground arith

associated-verdict :
    (b : Bool) (key : Text) (cx : Cx) → (if b then associate key cx else cx).verdict ≡ cx.verdict
unfolding associate
associated-verdict true key cx = refl
associated-verdict false key cx = refl

given-verdict :
    (env : Env) (v : Verdict) (cx cx' : Cx) (n : ℕ)
    → give_verdict env v cx ≡ done (n, cx')
    → cx'.verdict ≡ v
unfolding give_verdict answer_verdict is_accept
given-verdict env pending cx cx' n e = ground arith
given-verdict env accept cx cx' n e =
    reply-verdict _ cx' n e ∙ associated-verdict _ (env.key_of_port cx.host cx.req_port) _
given-verdict env reject cx cx' n e = reply-verdict _ cx' n e

handed-Judged : (env : Env) (cx : Cx) → cx.verdict ≢ pending → Judged (hand_off env cx)
unfolding hand_off
handed-Judged env cx v = elim (Bool-cases (is_empty cx.writebuf)) [
  | inl e ↦ rw (e, hand_off) (inr v)
  | inr e ↦ rw (e, hand_off) (inr v)
]

retried-IsEarly : (env : Env) (cx : Cx) → IsEarly cx.state → IsEarly (retry_dns env cx).state
unfolding retry_dns
retried-IsEarly env cx h =
    if-keeps P env.mixed_ip_versions _ _
      (if-keeps P (not cx.tested_dns_aaaa) _ _ (setup_dns-IsEarly env _ _ _ h)
        (if-keeps P (not cx.tested_dns_a) _ _ (setup_dns-IsEarly env _ _ _ h) h))
      h
  where
    P : Cx → Type 0
    P c = IsEarly c.state

written-Judged :
    (env : Env) (s : State) (cx : Cx)
    → IsEarly s ⊎ (cx.verdict ≢ pending)
    → cx.state ≡ s
    → Judged (pre_write_in env s cx)
unfolding pre_write_in
written-Judged env reqres_sent cx (inl h) e = absurd h
written-Judged env reqres_sent cx (inr v) e = handed-Judged env cx v
written-Judged env dns_resp_failed cx h e = inl (retried-IsEarly env cx (subst IsEarly (sym e) tt))
written-Judged env s cx h e = subst (λ t. IsEarly t ⊎ (cx.verdict ≢ pending)) (sym e) h

-- In a late state there is nothing to read for this context.
late_input :
    (env : Env) (s : State) (cx cx' : Cx) (n : ℕ)
    → ¬ IsEarly s
    → process_in_state env s cx ≡ done (n, cx')
    → cx' ≡ cx
unfolding process_in_state
late_input env init cx cx' n l e = absurd (l tt)
late_input env wait_request cx cx' n l e = absurd (l tt)
late_input env s cx cx' n l e = ground arith

abbrev EndsEarly : Ended ℕ → Type 0
EndsEarly (done (a, c)) = IsEarly c.state
EndsEarly (raised e c) = Unit {0}
EndsEarly undefined = Unit {0}

Safe-state :
    (env : Env) {m : Ended ℕ} (n : ℕ) (cx : Cx) → Safe env m → m ≡ done (n, cx) → IsEarly cx.state
Safe-state env n cx (safe_done a c h) e = subst EndsEarly e h
Safe-state env n cx (safe_raised x c h q) e = cc

abbrev AllEarly : {A : Type 0} → Ended A → Type 0
AllEarly (done (a, c)) = IsEarly c.state
AllEarly (raised e c) = Unit {0}
AllEarly undefined = Unit {0}

Fine-AllEarly : {A : Type 0} (env : Env) {m : Ended A} → Fine env m → AllEarly m
Fine-AllEarly env (fine_done a cx h) = h
Fine-AllEarly env (fine_raised e cx h x) = tt

module _ (env : Env) (laws : IsBuffers env.buffers)
    (ends : env.stoi env.source_port ≢ Outcome.undefined) where
  callback-AllEarly :
      (r : Option Packet) (red : ℤ) (cx : Cx) → AllEarly (dns_response_callback env r red cx)
  unfolding dns_response_callback watch_socket
  callback-AllEarly r red cx = if-keeps AllEarly (leb_ℤ red (pos 0)) _ _ tt (
      Fine-AllEarly env (
        Fine->>= env _ (dns_response-Fine env ends r _ tt)
          λ ok c h. fine_done ok _ (if-keeps (λ (x : Cx). IsEarly x.state) ok _ _ h tt)))

  sent-Judged : (cx : Cx) → Judged cx → Judged (process_out cx).1
  unfolding process_out process_socks_response
  sent-Judged cx h =
      if-keeps P (not (cx.l4_proto == sock_dgram)) (length cx.writebuf, cx) _ h
        (if-keeps P (ltb 4 (rank cx.state)) _ (length cx.writebuf, cx) (inl tt) h)
    where
      P : ℕ × Cx → Type 0
      P r = Judged r.1

  Step-Judged : {cx cx' : Cx} → Judged cx → Step env cx cx' → Judged cx'
  Step-Judged {cx} {cx'} h (moves_bytes r w e) = subst Judged (sym e) h
  Step-Judged {cx} {cx'} (inl h) (reads_input n e) =
      inl (Safe-state env n cx' (process_in-Safe env laws ends cx h) e)
  Step-Judged {cx} {cx'} (inr v) (reads_input n e) = elim (IsEarly-cases cx.state) [
    | inl h ↦ inl (Safe-state env n cx' (process_in-Safe env laws ends cx h) e)
    | inr l ↦
        subst Judged (sym (late_input env cx.state cx cx' n l (unfold process_in in e))) (inr v)
  ]
  Step-Judged {cx} {cx'} h (judged v n p e) =
      inr (λ z. p (sym (given-verdict env v cx cx' n e) ∙ z))
  Step-Judged {cx} {cx'} h (writes e) =
      subst Judged (sym e) (unfold pre_write in written-Judged env cx.state cx h refl)
  Step-Judged {cx} {cx'} h (resolved r red b e) =
      inl (subst AllEarly e (callback-AllEarly r red cx))
  Step-Judged {cx} {cx'} h (sends e) = subst Judged (sym e) (sent-Judged cx h)
  Step-Judged {cx} {cx'} (inl h) (retires s e) = absurd (subst IsEarly s h)
  Step-Judged {cx} {cx'} (inr v) (retires s e) = subst Judged (sym e) (inr v)
  Step-Judged {cx} {cx'} h (judged_datagram v n c p g e) =
      subst Judged (sym e) (inr (λ z. p (sym (given-verdict env v cx c n g) ∙ z)))
  Step-Judged {cx} {cx'} h (releases e) = subst Judged (sym e) h
  Step-Judged {cx} {cx'} h (fails e) = subst Judged (sym e) h

  all_Judged : {cx cx' : Cx} → IsEarly cx.state → Reach env cx cx' → Judged cx'
  all_Judged h here = inl h
  all_Judged h (next r s) = Step-Judged (all_Judged h r) s

  -- From any context before its verdict, whatever events of `Step` come in whatever order, where
  -- the buffer obeys its laws and stoi of the source port has defined behaviour: a context whose state is past the verdict (the verdict came, the reply is
  -- sent, it waits for the hand-off, or the proxy let it go) had a verdict.
  pub Reach-Judged :
      {cx cx' : Cx}
      → IsEarly cx.state
      → Reach env cx cx'
      → ¬ IsEarly cx'.state
      → cx'.verdict ≢ pending
  Reach-Judged {cx} {cx'} h r late = elim (all_Judged h r) [ inl e ↦ absurd (late e) | inr v ↦ v ]
