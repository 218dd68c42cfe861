-- ===== src/Server/Blocking.antt =====
-- Datagrams of one endpoint that are no JSON: register_bad_udp_packet, is_blocked_udp, and the branch of
-- UDPManager::start_receive that calls them.
use server_application.Common.{
  ℕ, zero, suc, sym, ◌++◌, codes, append-nil, append_assoc, ◌+◌, ◌-◌, ◌≤◌, ◌≡◌, refl, ap, ◌∙◌, Bool,
  true, false, none, some, List, [], ◌∷◌, arith, ltb, leb, length, is_empty, Text, Map, lookup, All,
  lookup-insert_self,
}
use server_application.Json.{Codec}
use server_application.Session.{Config, Endpoint}
use server_application.Server.{ServerState, BadUdpInfo, Output, sends_udp, endpoint_key, emit}
use server_application.Server.Flood.{
  bad_udp_limit, block_time, count_failure, register_bad_udp_packet, is_blocked_udp,
}
use server_application.Server.Packets.{reply}
use server_application.Server.Datagrams.{bad_packet, serve_datagram, on_datagram}

-- The count of an endpoint whose first failure is not too long ago.
abbrev counted : ℕ → ℕ → BadUdpInfo
counted first n = record { fail_count = n; first_fail_time = first }

not_late : (now first : ℕ) → now - first ≤ block_time → ltb block_time (now - first) ≡ false
not_late now first h = ground arith

count_failure-counted :
    (first now n : ℕ)
    → now - first ≤ block_time
    → count_failure now (counted first n) ≡ counted first (n + 1)
unfolding count_failure
count_failure-counted first now n h = rw (not_late now first h) refl

register-counted :
    (first now n : ℕ) (from : Endpoint) (m : Map Endpoint BadUdpInfo)
    → now - first ≤ block_time
    → lookup from m ≡ some (counted first n)
    → lookup from (register_bad_udp_packet now from m) ≡ some (counted first (n + 1))
unfolding register_bad_udp_packet
register-counted first now n from m h e =
    rw (e, register_bad_udp_packet, count_failure-counted first now n h)
      (lookup-insert_self from _ m)

register-first :
    (now : ℕ) (from : Endpoint) (m : Map Endpoint BadUdpInfo)
    → lookup from m ≡ none
    → lookup from (register_bad_udp_packet now from m) ≡ some (counted now 1)
unfolding register_bad_udp_packet
register-first now from m e = rw (e, register_bad_udp_packet) (lookup-insert_self from _ m)

is_blocked_udp-counted :
    (first now n : ℕ) (from : Endpoint) (m : Map Endpoint BadUdpInfo)
    → now - first ≤ block_time
    → lookup from m ≡ some (counted first n)
    → is_blocked_udp now from m ≡ (m, leb bad_udp_limit n)
unfolding is_blocked_udp
is_blocked_udp-counted first now n from m h e = rw (e, is_blocked_udp, not_late now first h) refl

module _ {J : Type 0} (codec : Codec J) (c : Config) (refill_of : ℕ → ℕ) (from : Endpoint) where
  -- One datagram after the other, each with the time of its receipt.
  unfoldable pub receive_all : List (ℕ × Text) → ServerState → ServerState
  receive_all [] w = w
  receive_all ((now, text) ∷ ds) w =
      receive_all ds (on_datagram codec c refill_of 0 [] now false text from w)

  -- A datagram of an allowed size that is no JSON, within the time of a block.
  pub record IsBad (first : ℕ) (d : ℕ × Text) : Type 0 where
    pub soon : d.0 - first ≤ block_time
    pub some_bytes : is_empty d.1 ≡ false
    pub fits : ltb c.max_udp_packet_size (length d.1) ≡ false
    pub no_json : codec.parse d.1 ≡ none

  bad_datagram :
      (first now : ℕ) (text : Text) (w : ServerState)
      → IsBad first (now, text)
      → on_datagram codec c refill_of 0 [] now false text from w
        ≡ bad_packet codec c refill_of now from w
  unfolding on_datagram serve_datagram
  bad_datagram first now text w h = rw (h.some_bytes, h.fits, h.no_json) refl

  -- The datagram that tells the endpoint that it sent no JSON.
  abbrev pub complaint : Output
  complaint = sends_udp from (
      codec.dump (
        codec.json.object (
          (codes "type", codec.json.string (codes "udp_error"))
          ∷ (codes "error", codec.json.string (codes "Invalid JSON format"))
          ∷ [])))

  abbrev pub complaints : ℕ → List Output
  complaints zero = []
  complaints (suc n) = complaint ∷ complaints n

  bad_packet-answers :
      (now : ℕ) (w : ServerState)
      → (bad_packet codec c refill_of now from w).output ≡ w.output ++ complaint ∷ []
  unfolding bad_packet reply emit
  bad_packet-answers now w = refl

  bad_packet-counted :
      (first now n : ℕ) (w : ServerState)
      → now - first ≤ block_time
      → lookup from (register_bad_udp_packet now from w.bad_udp_map) ≡ some (counted first n)
      → lookup from (bad_packet codec c refill_of now from w).bad_udp_map ≡ some (counted first n)
  unfolding bad_packet reply emit
  bad_packet-counted first now n w h e =
      ap (λ (r : Map Endpoint BadUdpInfo × Bool). lookup from (r.0))
        (is_blocked_udp-counted first now n from _ h e)
      ∙ e

  one_more :
      (before more now : List Output)
      → now ≡ before ++ complaint ∷ []
      → now ++ more ≡ before ++ complaint ∷ more
  one_more before more now e =
      ap (λ (os : List Output). os ++ more) e ∙ append_assoc before (complaint ∷ []) more

  receive_all-counts :
      (first n : ℕ) (ds : List (ℕ × Text)) (w : ServerState)
      → All (IsBad first) ds
      → lookup from w.bad_udp_map ≡ some (counted first n)
      → (lookup from (receive_all ds w).bad_udp_map ≡ some (counted first (length ds + n)))
        × ((receive_all ds w).output ≡ w.output ++ complaints (length ds))
  unfolding receive_all
  receive_all-counts first n [] w h e =
      (e ∙ ap (λ k. some (counted first k)) (omega arith), sym (append-nil w.output))
  receive_all-counts first n ((now, text) ∷ ds) w h e =
      let step = bad_datagram first now text w (h.0) in
      let answered = ap (λ (u : ServerState). u.output) step ∙ bad_packet-answers now w in
      let known =
        ap (λ (u : ServerState). lookup from u.bad_udp_map) step
        ∙ bad_packet-counted first now (n + 1) w (h.0.soon)
            (register-counted first now n from w.bad_udp_map (h.0.soon) e) in
      let rest = receive_all-counts first (n + 1) ds _ (h.1) known in
      (
        rest.0 ∙ ap (λ k. some (counted first k)) (omega arith),
        rest.1 ∙ one_more w.output (complaints (length ds)) _ answered,
      )

  -- An endpoint that had no failure yet sends datagrams that are no JSON, ten or more, none of them
  -- later than a minute after the first: is_blocked_udp then holds of it, to the end of that minute,
  -- and still each of the datagrams was answered with one datagram to this endpoint, the complaint that
  -- it is no JSON, and nothing else went out.
  pub blocked_endpoint_is_answered :
      (first later : ℕ) (text : Text) (ds : List (ℕ × Text)) (w : ServerState)
      → All (IsBad first) ((first, text) ∷ ds)
      → lookup from w.bad_udp_map ≡ none
      → bad_udp_limit ≤ suc (length ds)
      → later - first ≤ block_time
      → let w' = receive_all ((first, text) ∷ ds) w in
        ((is_blocked_udp later from w'.bad_udp_map).1 ≡ true)
        × (w'.output ≡ w.output ++ complaints (suc (length ds)))
  unfolding receive_all
  blocked_endpoint_is_answered first later text ds w h e many soon =
      let step = bad_datagram first first text w (h.0) in
      let answered = ap (λ (u : ServerState). u.output) step ∙ bad_packet-answers first w in
      let known =
        ap (λ (u : ServerState). lookup from u.bad_udp_map) step
        ∙ bad_packet-counted first first 1 w (h.0.soon)
            (register-first first from w.bad_udp_map e) in
      let rest = receive_all-counts first 1 ds _ (h.1) known in
      (
        ap (λ (r : Map Endpoint BadUdpInfo × Bool). r.1)
              (is_blocked_udp-counted first later (length ds + 1) from _ soon (rest.0))
            ∙ ground (arith, many),
        rest.1 ∙ one_more w.output (complaints (length ds)) _ answered,
      )
