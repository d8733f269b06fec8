-- ===== src/Engine/Relay/Delivery.antt =====
-- What a flow of datagrams carries, in every interleaving of its goroutines.
use mathlib.Core.List.{append-nil, append_assoc}
use teapod_tun2socks.Prelude.{
  ℕ, ◌≡◌, refl, sym, ap, ◌∙◌, List, [], ◌∷◌, ◌++◌, Bool, Option, none, ret, inl, inr, ret-injective,
  arith,
}
use teapod_tun2socks.Socks.Datagram.RoundTrip.{IsAddress}
use teapod_tun2socks.Engine.Relay.{
  UdpAddr, Config, looping, Udp, send_round, receive_round, Goroutine, sending, receiving,
  monitoring, shutdown, leave, finish,
}
use teapod_tun2socks.Engine.Relay.Runs.{
  Reach, started, asks, app_fails, hears, socket_fails, control_ends, leaves, finished,
}
use teapod_tun2socks.Engine.Relay.Rounds.{
  reply, Received, receive_round-Received, IsRequest, Forwarded, send_round-Forwarded,
}

-- What the app gets for the datagrams that the socket has heard, in their order.
abbrev pub replies : Config → List (List ℕ × Option UdpAddr) → List (List ℕ)
replies c [] = []
replies c (m ∷ heard) = reply c m ++ replies c heard

replies-append :
    (c : Config) (heard : List (List ℕ × Option UdpAddr)) (m : List ℕ × Option UdpAddr)
    → replies c (heard ++ (m ∷ [])) ≡ replies c heard ++ reply c m
replies-append c [] m = append-nil (reply c m)
replies-append c (x ∷ heard) m =
    ap (◌++◌ (reply c x)) (replies-append c heard m)
    ∙ sym (append_assoc (reply c x) (replies c heard) (reply c m))

-- Datagrams that carry packets, one for each, in their order.
pub data Requests (c : Config) : List (List ℕ) → List (List ℕ) → Type 0 where
  nothing : Requests c [] []
  one_more :
      {packets datagrams : List (List ℕ)} (packet datagram : List ℕ)
      → Requests c packets datagrams
      → IsRequest c packet datagram
      → Requests c (packets ++ (packet ∷ [])) (datagrams ++ (datagram ∷ []))

-- The relay gets a datagram for each of the first packets of the app, and the app gets the first
-- replies; nothing is missing while the loop runs.
pub record IsFaithful (c : Config) (asked : List (List ℕ)) (heard : List (List ℕ × Option UdpAddr))
    (f : Udp) : Type 0 where
  pub carried : List (List ℕ)
  pub lost : List (List ℕ)
  pub in_order : carried ++ lost ≡ asked
  pub requests : Requests c carried f.sent
  pub all_carried : f.sender ≡ looping → lost ≡ []
  pub unheard : List (List ℕ)
  pub answered : f.delivered ++ unheard ≡ replies c heard
  pub all_answered : f.receiver ≡ looping → unheard ≡ []

more_carried :
    {c : Config} {asked : List (List ℕ)} {heard : List (List ℕ × Option UdpAddr)} {f g : Udp}
    (packet : List ℕ)
    → IsFaithful c asked heard f
    → f.sender ≡ looping
    → Forwarded c packet f g
    → IsFaithful c (asked ++ (packet ∷ [])) heard g
more_carried {c} {asked} {heard} {f} packet v loops (inl (bytes, request, becomes)) =
    let all : v.carried ≡ asked =
      sym (append-nil v.carried) ∙ ap (◌++◌ v.carried) (sym (v.all_carried loops)) ∙ v.in_order in
    rw (becomes) (record {
      carried = v.carried ++ (packet ∷ []);
      lost = [];
      in_order = append-nil (v.carried ++ (packet ∷ [])) ∙ ap (λ l. l ++ (packet ∷ [])) all;
      requests = one_more packet bytes v.requests request;
      all_carried = λ _. refl;
      unheard = v.unheard;
      answered = v.answered;
      all_answered = v.all_answered;
    })
more_carried {c} {asked} {heard} {f} packet v loops (inr becomes) = rw (becomes) (record {
  carried = v.carried;
  lost = v.lost ++ (packet ∷ []);
  in_order =
      sym (append_assoc v.carried v.lost (packet ∷ [])) ∙ ap (λ l. l ++ (packet ∷ [])) v.in_order;
  requests = v.requests;
  all_carried = λ h. ground arith;
  unheard = v.unheard;
  answered = v.answered;
  all_answered = v.all_answered;
})

more_heard :
    {c : Config} {asked : List (List ℕ)} {heard : List (List ℕ × Option UdpAddr)} {f g : Udp}
    (m : List ℕ × Option UdpAddr)
    → IsFaithful c asked heard f
    → f.receiver ≡ looping
    → Received c m f g
    → IsFaithful c asked (heard ++ (m ∷ [])) g
more_heard {c} {asked} {heard} {f} m v loops (inl becomes) =
    let all : f.delivered ≡ replies c heard =
      sym (append-nil f.delivered)
      ∙ ap (◌++◌ f.delivered) (sym (v.all_answered loops))
      ∙ v.answered in
    rw (becomes) (record {
      carried = v.carried;
      lost = v.lost;
      in_order = v.in_order;
      requests = v.requests;
      all_carried = v.all_carried;
      unheard = [];
      answered =
          append-nil (f.delivered ++ reply c m)
          ∙ ap (λ l. l ++ reply c m) all
          ∙ sym (replies-append c heard m);
      all_answered = λ _. refl;
    })
more_heard {c} {asked} {heard} {f} m v loops (inr becomes) = rw (becomes) (record {
  carried = v.carried;
  lost = v.lost;
  in_order = v.in_order;
  requests = v.requests;
  all_carried = v.all_carried;
  unheard = v.unheard ++ reply c m;
  answered =
      sym (append_assoc f.delivered v.unheard (reply c m))
      ∙ ap (λ l. l ++ reply c m) v.answered
      ∙ sym (replies-append c heard m);
  all_answered = λ h. ground arith;
})

-- What matters to `IsFaithful`: the messages stay, and no loop starts again.
record Keeps (f g : Udp) : Type 0 where
  same_sent : g.sent ≡ f.sent
  same_delivered : g.delivered ≡ f.delivered
  sender_before : g.sender ≡ looping → f.sender ≡ looping
  receiver_before : g.receiver ≡ looping → f.receiver ≡ looping

Keeps-IsFaithful :
    {c : Config} {asked : List (List ℕ)} {heard : List (List ℕ × Option UdpAddr)} {f g : Udp}
    → Keeps f g
    → IsFaithful c asked heard f
    → IsFaithful c asked heard g
Keeps-IsFaithful {c} {asked} {heard} {f} {g} k v = record {
  carried = v.carried;
  lost = v.lost;
  in_order = v.in_order;
  requests = rw (k.same_sent) v.requests;
  all_carried = λ h. v.all_carried (k.sender_before h);
  unheard = v.unheard;
  answered = rw (k.same_delivered) v.answered;
  all_answered = λ h. v.all_answered (k.receiver_before h);
}

leave-Keeps : (who : Goroutine) (f : Udp) → Keeps f (leave who f)
unfolding leave shutdown
leave-Keeps sending f = ground arith
leave-Keeps receiving f = ground arith
leave-Keeps monitoring f = ground arith

finish-Keeps : (f : Udp) → Keeps f (finish f)
unfolding finish shutdown
finish-Keeps f = ground arith

app_fails-Keeps : (c : Config) (ok : Bool) (f g : Udp) → send_round c none ok f ≡ ret g → Keeps f g
unfolding send_round
app_fails-Keeps c ok f g h = rw (← ret-injective _ _ h) (ground arith)

socket_fails-Keeps :
    (c : Config) (ok : Bool) (f g : Udp) → receive_round c none ok f ≡ ret g → Keeps f g
unfolding receive_round
socket_fails-Keeps c ok f g h = rw (← ret-injective _ _ h) (ground arith)

-- In every interleaving, for a destination of four or sixteen bytes: the datagrams sent to the
-- relay decode to the packets of the app, cut to the size of the device, and to the destination of
-- the flow, one for each of the first packets and in their order; the app gets the payloads of the
-- first well-formed datagrams that came from the relay, in their order, and nothing else. While a
-- loop runs, nothing of its direction is missing.
pub relay-IsFaithful :
    {c : Config} {asked : List (List ℕ)} {heard : List (List ℕ × Option UdpAddr)} {f : Udp}
    → IsAddress c.dst_ip
    → Reach c asked heard f
    → IsFaithful c asked heard f
relay-IsFaithful h started = record {
  carried = [];
  lost = [];
  in_order = refl;
  requests = nothing;
  all_carried = λ _. refl;
  unheard = [];
  answered = refl;
  all_answered = λ _. refl;
}
relay-IsFaithful {c} h (asks {asked} {heard} {f} {g} packet ok r loops ran) =
    let (g', ran', forwarded) = send_round-Forwarded c packet ok f h in
    let same : g' ≡ g = ret-injective g' g (sym ran' ∙ ran) in
    rw (← same) (more_carried packet (relay-IsFaithful h r) loops forwarded)
relay-IsFaithful {c} h (app_fails {asked} {heard} {f} {g} ok r loops ran) =
    Keeps-IsFaithful (app_fails-Keeps c ok f g ran) (relay-IsFaithful h r)
relay-IsFaithful {c} h (hears {asked} {heard} {f} {g} packet from ok r loops ran) =
    let (g', ran', received) = receive_round-Received c packet from ok f in
    let same : g' ≡ g = ret-injective g' g (sym ran' ∙ ran) in
    rw (← same) (more_heard (packet, from) (relay-IsFaithful h r) loops received)
relay-IsFaithful {c} h (socket_fails {asked} {heard} {f} {g} ok r loops ran) =
    Keeps-IsFaithful (socket_fails-Keeps c ok f g ran) (relay-IsFaithful h r)
relay-IsFaithful {c} h (control_ends {asked} {heard} {f} r loops) =
    Keeps-IsFaithful {f = f} (ground arith) (relay-IsFaithful h r)
relay-IsFaithful {c} h (leaves {asked} {heard} {f} who r leaving_now) =
    Keeps-IsFaithful (leave-Keeps who f) (relay-IsFaithful h r)
relay-IsFaithful {c} h (finished {asked} {heard} {f} r _ _ _) =
    Keeps-IsFaithful (finish-Keeps f) (relay-IsFaithful h r)
