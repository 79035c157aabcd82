-- ===== src/Inspect/Responses.antt =====
-- src/inspect/dnsinspector.cpp: the responses of a flow in DNS_Inspector::update, validate_response
-- and store.
use smithproxy.Base.{
  ℕ, zero, suc, ◌+◌, ◌-◌, Bool, true, false, not, ◌&&◌, ◌||◌, List, [], ◌∷◌, ◌++◌, Option, none,
  some, Text, ◌==◌, ltb, if◌then◌else◌, length,
}
use smithproxy.Base.Outcome.{Outcome, value, ◌>>=◌}
use smithproxy.Dns.{Packet, Answer, new_packet, type_a, type_aaaa}
use smithproxy.Dns.Load.{load}
use smithproxy.Dns.Response.{question_str_0}
use smithproxy.Fqdn.{split_fqdn_subdomain}
use smithproxy.Inspect.{Env, World, Response, find_request, loaded}

abbrev pub no_text : Text → Bool
no_text [] = true
no_text (c ∷ cs) = false

-- The lifetimes of a sub-domain's entry: DNS::top_ttl where its domain is known, else DNS::sub_ttl.
abbrev pub top_ttl : ℕ
top_ttl = 28000

abbrev pub sub_ttl : ℕ
sub_ttl = 3600

abbrev pub is_known : Option Packet → Bool
is_known none = false
is_known (some p) = true

module _ (env : Env) (now : ℕ) where
  open env use {buffers, ip, cache_set, has_domain, set_subdomain, add_domain}

  -- DNS_Packet::answer_str_A.
  unfoldable pub answer_str_a : List Answer → Text
  answer_str_a [] = []
  answer_str_a (x ∷ xs) =
      if (x.kind == type_a) || (x.kind == type_aaaa)
      then 32 ∷ (ip x ++ answer_str_a xs)
      else answer_str_a xs

  unfoldable pub store_domain : Text × Text → World env → World env
  store_domain (top, sub) w =
      if not (no_text top) && not (no_text sub)
      then if has_domain w.domains top
        then record w { domains = set_subdomain w.domains top sub top_ttl }
        else record w { domains = add_domain w.domains top sub sub_ttl }
      else w

  unfoldable pub store : Response → World env → Outcome (World env × Bool)
  store r w = if no_text (answer_str_a r.packet.answers_list) then value (w, false) else (do
    let question = question_str_0 r.packet
    let w = record w { cache = cache_set w.cache question r }
    parts ← split_fqdn_subdomain question
    value (store_domain parts w, true))

  unfoldable pub validate_response : Response → World env → Bool
  validate_response r w = is_known (find_request r.packet.id w.inspector.requests)

  -- A response without a request drops what is to be written and the connection.
  unfoldable pub reject_response : World env → World env
  reject_response w = record w { cx = record w.cx { writebuf = []; in_error = true } }

  unfoldable pub accept_response : Response → World env → Outcome (World env)
  accept_response r w = do
    (w, kept) ←
        store r
          (record w { inspector = record w.inspector { responses = w.inspector.responses + 1 } })
    value (record w {
      inspector = record w.inspector { stored = kept || w.inspector.stored };
      cx = record w.cx { idle_delay = if w.inspector.is_tcp then 30 else 10 };
    })

  -- The bytes are kept with the packet where responses are cached.
  unfoldable pub make_response : List ℕ → Packet → World env → Response
  make_response cur p w = record {
    packet = p;
    cached_packet = if w.inspector.opt_cached_responses then some cur else none;
  }

  unfoldable pub handle_response : Response → World env → Outcome (World env)
  handle_response r w =
      if validate_response r w then accept_response r w else value (reject_response w)

  unfoldable pub response_loaded :
      List ℕ
      → (ℕ → World env → Outcome (World env))
      → World env
      → Option (ℕ × Packet)
      → Outcome (World env)
  response_loaded cur rec w none = value w
  response_loaded cur rec w (some (n, p)) = do
    w ← handle_response (make_response cur p w) w
    rec n w

  -- At most ten rounds. The next position in the entry is that in the message just loaded.
  unfoldable pub response_loop : List ℕ → ℕ → ℕ → World env → Outcome (World env)
  response_loop bytes zero red w = value w
  response_loop bytes (suc it) red w =
      if ltb red (length bytes)
      then (do
        let cur = buffers.view bytes red (length bytes - red)
        l ← loaded (load buffers cur now new_packet)
        response_loaded cur (response_loop bytes it) w l)
      else value w
