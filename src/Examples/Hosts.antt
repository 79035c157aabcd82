-- ===== src/Examples/Hosts.antt =====
-- A context whose inspector sees a request.
use smithproxy.Base.{◌≡◌, refl, true, false, [], ◌∷◌, none}
use smithproxy.Base.Outcome.{value}
use smithproxy.Dns.Response.{question_type_0}
use smithproxy.Inspect.{verdict_ok, dns_prefilter, loaded, note_request, erase_request}
use smithproxy.Inspect.Requests.{
  request_loop, request_loaded, add_request, answer_from_cache, entry_answer, no_cached,
}
use smithproxy.Inspect.Update.{
  update, last_entry, begin, from_client, read_transport, read_entry, at_stage,
}
use smithproxy.Inspect.Host.{
  Host, inspect, inspect_flow, inspect_new, inspect_each, new_entry, update_one, updated,
  by_verdict, set_app_name, go_on,
}
use smithproxy.Inspect.Once.{inspect-once}
use smithproxy.Examples.Packets.{request, request_loads, asked}
use smithproxy.Examples.Inspections.{listed, udp_cx, caching}

abbrev host : Host listed
host = record {
  cx = udp_cx;
  peer = none;
  flow = (from_client, request) ∷ [];
  inspectors = caching ∷ [];
  inspect_cur_flow_size = 0;
  inspect_flow_same_bytes = 0;
  inspect_verdict = verdict_ok;
  inspect_verdict_response = none;
  has_application_data = false;
  cache = [];
  domains = [];
}

abbrev inspected : Host listed
inspected = record host {
  cx = record udp_cx { idle_delay = 30 };
  inspectors = record caching { in_progress = true; requests = (43981, asked) ∷ [] } ∷ [];
  inspect_cur_flow_size = 1;
  inspect_flow_same_bytes = 20;
  has_application_data = true;
}

host-inspected : inspect listed 7 108 host ≡ value inspected
unfolding inspect inspect_flow inspect_new inspect_each new_entry update_one updated by_verdict
    set_app_name go_on dns_prefilter update last_entry begin read_transport read_entry at_stage
    request_loop request_loaded add_request answer_from_cache entry_answer no_cached loaded
    note_request erase_request question_type_0
host-inspected = rw request_loads refl

inspect-once_example : inspect listed 9 114 inspected ≡ value inspected
inspect-once_example = inspect-once listed 7 9 108 114 host inspected host-inspected
