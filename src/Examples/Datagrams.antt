-- ===== src/Examples/Datagrams.antt =====
-- A concrete session over UDP.
use smithproxy.Base.{[], ◌∷◌, ◌≡◌, refl}
use smithproxy.Policy.Rule.{action_pass}
use smithproxy.Session.Accept.{on_left_new}
use smithproxy.Session.Datagram.{udp_on_left_new}
use smithproxy.Session.Alike.{udp_on_left_new-on_left_new}
use smithproxy.Examples.Sessions.{plain_session, table, accepted}

udp_on_left_new-on_left_new_example :
    udp_on_left_new plain_session (table action_pass) [] accepted
    ≡ on_left_new plain_session (table action_pass) [] accepted
udp_on_left_new-on_left_new_example =
    udp_on_left_new-on_left_new plain_session (table action_pass) [] accepted (49 ∷ [], 50 ∷ [])
      refl refl λ e. absurd (cc)
