-- ===== src/Examples/Certificates.antt =====
-- A running session whose server's certificate is not good, and the end of sessions.
use smithproxy.Base.{◌≡◌, refl, true, false, [], ◌∷◌, Text, arith}
use smithproxy.Base.Tests.{same_text}
use smithproxy.Base.Outcome.{throws, out_of_range, Yields}
use smithproxy.Dns.Response.{ascii}
use smithproxy.Session.Identity.{has_text}
use smithproxy.Mitm.{http, request, find_text, contains, starts_with, next_position}
use smithproxy.Mitm.Pages.{handle_replacement_ssl}
use smithproxy.Mitm.Guard.{handle_com_response_ssl}
use smithproxy.Mitm.Close.{on_errors}
use smithproxy.Mitm.Ended.{any_late, pending, on_errors-half_timeout}
use smithproxy.Mitm.Blocked.{
  Readable, Served, handle_replacement_ssl-Served, handle_replacement_ssl-throws,
}
use smithproxy.Mitm.Unverified.{Stopped, handle_com_response_ssl-Stopped}
use smithproxy.Examples.Portal.{portal, scom, asked_page, guest}

on_errors-half_timeout_example :
    (on_errors 5 (100 ∷ 103 ∷ 106 ∷ []) (pending 0 false)).dead ≡ any_late 105 (103 ∷ 106 ∷ [])
on_errors-half_timeout_example = on_errors-half_timeout 5 100 (103 ∷ 106 ∷ []) false (omega arith)

root-Readable : Readable (asked_page (ascii "/"))
unfolding request find_text starts_with next_position same_text
root-Readable i e = absurd (cc)

handle_com_response_ssl-Stopped_example :
    Yields
      (λ r. Stopped portal (guest (ascii "/")) r × (r.0.px.ssl_handled ≡ true))
      (handle_com_response_ssl portal 1000 (guest (ascii "/")))
unfolding has_text
handle_com_response_ssl-Stopped_example =
    handle_com_response_ssl-Stopped portal 1000 (guest (ascii "/")) scom refl refl refl refl
      (omega arith) (omega arith) (refl, refl) root-Readable

handle_replacement_ssl-Served_example :
    Yields
      (Served portal scom (http false (asked_page (ascii "/"))) (guest (ascii "/")))
      (handle_replacement_ssl portal (guest (ascii "/")))
handle_replacement_ssl-Served_example =
    handle_replacement_ssl-Served portal (guest (ascii "/")) scom
      (http false (asked_page (ascii "/"))) refl refl root-Readable

abbrev cut_uri : Text
cut_uri = ascii "/SM/IT/HP/RO/XY/override?orig_url"

handle_replacement_ssl-throws_example :
    handle_replacement_ssl portal (guest cut_uri) ≡ throws out_of_range
unfolding request find_text starts_with next_position contains same_text
handle_replacement_ssl-throws_example =
    handle_replacement_ssl-throws portal (guest cut_uri) scom false (asked_page cut_uri) 33 refl
      refl refl refl refl refl
