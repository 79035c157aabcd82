-- ===== src/Socks/Input.antt =====
-- process_in as a whole.
use smithproxy.Base.{
  ℕ, ◌+◌, ◌<◌, ◌≡◌, refl, ◌≢◌, inl, inr, Bool, true, false, List, Option, none, some, arith, ◌==◌,
  ltb, if◌then◌else◌, length, get_elem?, get_elem?-lt,
}
use smithproxy.Base.Outcome.{
  Outcome, Exception, value, throws, out_of_range, logic_error, invalid_argument,
}
use smithproxy.Base.Bytes.{IsBuffers, byte_at}
use smithproxy.Socks.{
  Cx, Env, Ended, done, raised, ◌>>=◌, reading, RequestError, no_error, unsupported_version,
  unsupported_atype, unsupported_method, malformed_data, unauthorized, State, init, wait_request,
}
use smithproxy.Socks.Connect.{
  finish_request, catch_request, process_socks_request, hello_methods, process_socks_hello_tcp,
  catch_udp, process_socks_udp_request, process_socks_hello, process_in_state, process_in,
}
use smithproxy.Socks.Progress.{IsEarly, Fine, fine_done, fine_raised}
use smithproxy.Socks.Safety.{request_body-Fine, handle5-Fine}

module _ (env : Env) where
  -- A call that ended with a state before the verdict; an exception is one that stoi threw.
  pub data Safe {A : Type 0} : Ended A → Type 0 where
    safe_done : (a : A) (cx : Cx) → IsEarly cx.state → Safe (done (a, cx))
    safe_raised :
        (e : Exception) (cx : Cx)
        → IsEarly cx.state
        → env.stoi env.source_port ≡ throws e
        → Safe (raised e cx)

  Safe-if : {A : Type 0} (b : Bool) {m n : Ended A} → Safe m → Safe n → Safe (if b then m else n)
  Safe-if true h k = h
  Safe-if false h k = k

  -- A test that the other branch may rely on.
  Safe-unless :
      {A : Type 0} (b : Bool) {m n : Ended A}
      → Safe m
      → (b ≡ false → Safe n)
      → Safe (if b then m else n)
  Safe-unless true h k = h
  Safe-unless false h k = k refl

  finish-Safe : (e : RequestError) (cx : Cx) → IsEarly cx.state → Safe (finish_request env e cx)
  unfolding finish_request
  finish-Safe no_error cx h = safe_done _ _ h
  finish-Safe e cx h = safe_done _ _ h

  catch_request-Safe : {m : Ended (Option RequestError)} → Fine env m → Safe (catch_request env m)
  unfolding catch_request
  catch_request-Safe (fine_done none cx h) = safe_done _ _ h
  catch_request-Safe (fine_done (some e) cx h) = finish-Safe e cx h
  catch_request-Safe (fine_raised out_of_range cx h x) = finish-Safe malformed_data cx h
  catch_request-Safe (fine_raised logic_error cx h (inl x)) = cc
  catch_request-Safe (fine_raised logic_error cx h (inr x)) = safe_raised _ _ h x
  catch_request-Safe (fine_raised invalid_argument cx h (inl x)) = cc
  catch_request-Safe (fine_raised invalid_argument cx h (inr x)) = safe_raised _ _ h x

  catch_udp-Safe : {m : Ended RequestError} → Fine env m → Safe (catch_udp env m)
  unfolding catch_udp
  catch_udp-Safe (fine_done no_error cx h) = safe_done _ _ h
  catch_udp-Safe (fine_done unsupported_version cx h) = safe_done _ _ h
  catch_udp-Safe (fine_done unsupported_atype cx h) = safe_done _ _ h
  catch_udp-Safe (fine_done unsupported_method cx h) = safe_done _ _ h
  catch_udp-Safe (fine_done malformed_data cx h) = safe_done _ _ h
  catch_udp-Safe (fine_done unauthorized cx h) = safe_done _ _ h
  catch_udp-Safe (fine_raised out_of_range cx h x) = safe_done _ _ h
  catch_udp-Safe (fine_raised logic_error cx h (inl x)) = cc
  catch_udp-Safe (fine_raised logic_error cx h (inr x)) = safe_raised _ _ h x
  catch_udp-Safe (fine_raised invalid_argument cx h (inl x)) = cc
  catch_udp-Safe (fine_raised invalid_argument cx h (inr x)) = safe_raised _ _ h x

  module _ (laws : IsBuffers env.buffers)
      (ends : env.stoi env.source_port ≢ Outcome.undefined) where
    request-Safe : (cx : Cx) → IsEarly cx.state → Safe (process_socks_request env cx)
    unfolding process_socks_request
    request-Safe cx h =
        Safe-if _ (safe_done _ _ h) (catch_request-Safe (request_body-Fine env ends laws _ h))

    -- A read inside the buffer gives its byte.
    read_inside :
        {B : Type 0} (b : List ℕ) (i : ℕ) (cx : Cx) (f : ℕ × Cx → Ended B)
        → i < length b
        → ((x : ℕ) → Safe (f (x, cx)))
        → Safe (reading (env.buffers.get_at_u8 b i) cx >>= f)
    read_inside b i cx f lt k =
        let (x, e) = get_elem?-lt b i lt in rw (laws.reads_u8 b i, byte_at_some b i x e) (k x)
      where
        byte_at_some : (b : List ℕ) (i x : ℕ) → get_elem? b i ≡ some x → byte_at b i ≡ value x
        byte_at_some b i x e = rw (e, byte_at)

    hello_methods-Safe :
        (version nmethods : ℕ) (cx : Cx)
        → IsEarly cx.state
        → Safe (hello_methods env version nmethods cx)
    unfolding hello_methods
    hello_methods-Safe version nmethods cx h =
        Safe-if (ltb (length cx.readbuf) (2 + nmethods)) (safe_done 0 cx h) (
          Safe-if (version == 5) (safe_done _ _ tt)
            (Safe-if (version == 4) (request-Safe cx h) (safe_done _ _ h)))

    hello_tcp-Safe : (cx : Cx) → IsEarly cx.state → Safe (process_socks_hello_tcp env cx)
    unfolding process_socks_hello_tcp
    hello_tcp-Safe cx h = Safe-unless (ltb (length cx.readbuf) 3) (safe_done _ _ h) λ big.
        read_inside _ 0 _ _ (ground arith) λ version.
          read_inside _ 1 _ _ (ground arith) λ nmethods. hello_methods-Safe version nmethods _ h

    udp_request-Safe : (cx : Cx) → IsEarly cx.state → Safe (process_socks_udp_request env cx)
    unfolding process_socks_udp_request
    udp_request-Safe cx h = Safe-unless (ltb (length cx.readbuf) 4) (safe_done _ _ h) λ big.
        read_inside _ 0 _ _ (ground arith) λ reserved.
          read_inside _ 2 _ _ (ground arith) λ fragment.
            read_inside _ 3 _ _ (ground arith)
              λ atype. catch_udp-Safe (handle5-Fine env ends laws _ h)

    process_in_early : (s : State) (cx : Cx) → IsEarly cx.state → Safe (process_in_state env s cx)
    unfolding process_in_state process_socks_hello
    process_in_early init cx h = Safe-if _ (udp_request-Safe cx h) (hello_tcp-Safe cx h)
    process_in_early wait_request cx h = request-Safe cx h
    process_in_early s cx h = safe_done _ _ h

    -- On any input, process_in on a context before its verdict ends without undefined behaviour, in
    -- a state before the verdict; std::out_of_range does not leave it unless stoi of the source
    -- port throws it, and neither does any other exception.
    pub process_in-Safe : (cx : Cx) → IsEarly cx.state → Safe (process_in env cx)
    unfolding process_in
    process_in-Safe cx h = process_in_early cx.state cx h
