-- ===== src/Noise/Delivery.antt =====
-- What sendMessage puts on the wire, decryptFrame gives back, when the carrier hands each frame to
-- the peer's session in order.
use thalovant_go_sdk.Prelude.{
  ℕ, zero, suc, ◌+◌, ◌≤◌, ◌<◌, ◌≡◌, refl, sym, ap, ◌∙◌, arith, Bool, true, false, none, some, List,
  [], ◌∷◌, ◌++◌, length, take, drop, take-add, take_all, length-take, if◌then◌else◌, leb, ltb,
  Bool-cases, inl, inr, ltb→lt, lt→ltb,
}
use mathlib.Core.Path.{subst}
use thalovant_go_sdk.Noise.{
  Bytes, Cipher, NoiseSession, Received, incomplete, complete, noise_max_reassembly,
  noise_chunk_size, read_frame, decrypt_frame, frame_more, frame_last, frame_json, frame_binary,
  frame_first_json, frame_first_binary, is_empty, Sent, put_frame, chunk_marker, unless_failed,
  send_chunks, send_message,
}

-- The documented behaviour of two transport cipher states of one handshake: while `k` nonces are
-- left, a message that one seals is opened by the other, and both advance.
pub record CipherPair (c : Cipher) : Type 1 where
  pub Paired : ℕ → c.State → c.State → Type 0
  pub fewer : (k n : ℕ) (s r : c.State) → k ≤ n → Paired n s r → Paired k s r
  pub seal :
      (k : ℕ) (s r : c.State) (m : Bytes)
      → Paired (suc k) s r
      → (s' : c.State) × (r' : c.State) × (f : Bytes) × (c.encrypt s m ≡ some (s', f))
        × (c.decrypt r f ≡ some (r', m))
        × Paired k s' r'

-- The other end: its session, and what its frames came to, the last one last.
pub record Peer (c : Cipher) : Type 0 where
  pub session : NoiseSession c
  pub inbox : List Received

abbrev pub keep : List Received → Received → List Received
keep inbox incomplete = inbox
keep inbox x = inbox ++ x ∷ []

module _ {c : Cipher} where
  -- A carrier that loses nothing: each frame is read by the peer.
  abbrev pub deliver : Peer c → Bytes → Peer c × Bool
  deliver p frame =
      let (r, x) = decrypt_frame p.session frame in
      (record { session = r; inbox = keep p.inbox x }, true)

  abbrev reads : Peer c → c.State → ℕ → Bytes → Peer c
  reads p r' marker body =
      let (r, x) = read_frame (record p.session { recv = r' }) marker body in
      record { session = r; inbox = keep p.inbox x }

module _ {c : Cipher} (pair : CipherPair c) where
  open pair use {Paired, fewer, seal}

  put_frame-deliver :
      (k marker : ℕ) (body : Bytes) (s : c.State) (p : Peer c)
      → Paired (suc k) s p.session.recv
      → (s' : c.State) × (r' : c.State) × (put_frame c deliver marker body s p
          ≡ record { state = s'; wire = reads p r' marker body; error = none })
        × Paired k s' r'
  unfolding put_frame decrypt_frame
  put_frame-deliver k marker body s p h =
      let (s', r', f, enc, dec, paired) = seal k s p.session.recv (marker ∷ body) h in
      (s', r', rw (enc, put_frame) (rw (dec, decrypt_frame) refl), paired)

-- The peer has the whole message and no message in progress, and `k` nonces are left.
pub record Arrived {c : Cipher} (pair : CipherPair c) (k : ℕ) (payload : Bytes) (j : Bool)
    (before : List Received) (o : Sent c.State (Peer c)) : Type 0 where
  pub no_error : o.error ≡ none
  pub inbox : o.wire.inbox ≡ before ++ complete payload j ∷ []
  pub closed : o.wire.session.reassembly ≡ []
  pub paired : pair.Paired k o.state o.wire.session.recv

chunk_pos : 0 < noise_chunk_size
unfolding noise_chunk_size
chunk_pos = omega arith

take_open : (n : ℕ) (xs : Bytes) → 0 < n → 0 < length xs → is_empty (take n xs) ≡ false
take_open zero xs h l = absurd (omega arith)
take_open (suc n) [] h l = absurd (omega arith)
take_open (suc n) (x ∷ xs) h l = refl

module _ {c : Cipher} where
  -- A middle chunk that fits is appended.
  read_more :
      (r : NoiseSession c) (body : Bytes)
      → is_empty r.reassembly ≡ false
      → length (r.reassembly ++ body) ≤ noise_max_reassembly
      → read_frame r frame_more body ≡ (record r { reassembly = r.reassembly ++ body }, incomplete)
  unfolding read_frame
  read_more r body o h = rw o (ground arith)

  read_last :
      (r : NoiseSession c) (body : Bytes)
      → is_empty r.reassembly ≡ false
      → length (r.reassembly ++ body) ≤ noise_max_reassembly
      → read_frame r frame_last body
        ≡ (record r { reassembly = []; is_json = false }, complete (r.reassembly ++ body) r.is_json)
  unfolding read_frame
  read_last r body o h = rw o (ground arith)

  read_first :
      (r : NoiseSession c) (j : Bool) (body : Bytes)
      → r.reassembly ≡ []
      → length body ≤ noise_max_reassembly
      → read_frame r (if j then frame_first_json else frame_first_binary) body
        ≡ (record r { reassembly = body; is_json = j }, incomplete)
  unfolding read_frame
  read_first r true body o h = ground arith
  read_first r false body o h = ground arith

  read_single :
      (r : NoiseSession c) (j : Bool) (body : Bytes)
      → r.reassembly ≡ []
      → read_frame r (if j then frame_json else frame_binary) body ≡ (r, complete body j)
  unfolding read_frame
  read_single r true body o = ground arith
  read_single r false body o = ground arith

send_chunks_done :
    (c : Cipher) {W : Type 0} (raw_send : W → Bytes → W × Bool) (fuel first offset : ℕ)
    (payload : Bytes) (s : c.State) (w : W)
    → length payload ≤ offset
    → send_chunks c raw_send fuel first offset payload s w
      ≡ record { state = s; wire = w; error = none }
unfolding send_chunks
send_chunks_done c raw_send zero first offset payload s w h = refl
send_chunks_done c raw_send (suc fuel) first offset payload s w h =
    elim (Bool-cases (ltb offset (length payload))) [
      | inl lt ↦ absurd (omega (arith, ltb→lt _ _ lt))
      | inr ge ↦ rw ge refl
    ]

send_chunks_step :
    (c : Cipher) {W : Type 0} (raw_send : W → Bytes → W × Bool) (fuel first offset : ℕ)
    (payload : Bytes) (s s' : c.State) (w w' : W)
    → offset < length payload
    → put_frame c raw_send
        (chunk_marker first offset (length payload))
        (take noise_chunk_size (drop offset payload))
        s
        w
      ≡ record { state = s'; wire = w'; error = none }
    → send_chunks c raw_send (suc fuel) first offset payload s w
      ≡ send_chunks c raw_send fuel first (offset + noise_chunk_size) payload s' w'
unfolding send_chunks unless_failed
send_chunks_step c raw_send fuel first offset payload s s' w w' h e = rw (lt→ltb _ _ h) (
    ap
      (λ sent.
        unless_failed sent (λ s'' w''.
          send_chunks c raw_send fuel first (offset + noise_chunk_size) payload s'' w''))
      e)

marker_inside :
    (first offset size : ℕ)
    → 0 < offset
    → size ≤ offset + noise_chunk_size
    → chunk_marker first offset size ≡ frame_last
unfolding chunk_marker
marker_inside first offset size h0 h = ground arith

marker_first : (first size : ℕ) → chunk_marker first 0 size ≡ first
unfolding chunk_marker
marker_first first size = refl

marker_more :
    (first offset size : ℕ)
    → 0 < offset
    → offset + noise_chunk_size < size
    → chunk_marker first offset size ≡ frame_more
unfolding chunk_marker
marker_more first offset size h0 h = ground arith

length-take-le : (n : ℕ) (xs : Bytes) → length (take n xs) ≤ length xs
length-take-le n xs = omega (arith, length-take {0} n xs)

module _ {c : Cipher} (pair : CipherPair c) where
  open pair use {Paired, fewer, seal}

  -- The loop from an offset inside the message, the bytes before it being with the peer.
  send_chunks-Arrived :
      (fuel k n first offset : ℕ) (payload : Bytes) (s : c.State) (p : Peer c)
      → 0 < offset
      → offset < length payload
      → length payload ≤ fuel + offset
      → length payload ≤ noise_max_reassembly
      → p.session.reassembly ≡ take offset payload
      → fuel + k ≤ n
      → Paired n s p.session.recv
      → Arrived pair k payload p.session.is_json p.inbox
          (send_chunks c deliver fuel first offset payload s p)
  send_chunks-Arrived zero k n first offset payload s p h0 h1 h2 h3 h4 h5 h = absurd (omega arith)
  send_chunks-Arrived (suc fuel) k zero first offset payload s p h0 h1 h2 h3 h4 h5 h =
      absurd (omega arith)
  send_chunks-Arrived (suc fuel) k (suc n) first offset payload s p h0 h1 h2 h3 h4 h5 h =
      elim (Bool-cases (ltb (offset + noise_chunk_size) (length payload))) [
        | inl more ↦
            let m = marker_more first offset (length payload) h0 (ltb→lt _ _ more) in
            let (s', r', e, paired) = put_frame-deliver pair n frame_more body s p h in
            let q = read_more (record p.session { recv = r' }) body is_open fits in
            rw
              (send_chunks_step c deliver fuel first offset payload s s' p
                  (reads p r' frame_more body) h1 (at_marker frame_more m ∙ e)
                ∙ ap
                    (λ (x : NoiseSession c × Received).
                      send_chunks c deliver fuel first (offset + noise_chunk_size) payload s'
                        (record { session = x.0; inbox = keep p.inbox x.1 }))
                    q)
              (send_chunks-Arrived fuel k n first (offset + noise_chunk_size) payload s'
                (record {
                  session = record p.session {
                    recv = r';
                    reassembly = p.session.reassembly ++ body;
                  };
                  inbox = p.inbox;
                })
                (omega arith) (ltb→lt _ _ more) (omega (arith, chunk_pos)) h3 joined (omega arith)
                paired)
        | inr final ↦
            let past : length payload ≤ offset + noise_chunk_size = ground arith in
            let m = marker_inside first offset (length payload) h0 past in
            let (s', r', e, paired) = put_frame-deliver pair n frame_last body s p h in
            let q = read_last (record p.session { recv = r' }) body is_open fits in
            rw
              (send_chunks_step c deliver fuel first offset payload s s' p
                  (reads p r' frame_last body) h1 (at_marker frame_last m ∙ e)
                ∙ send_chunks_done c deliver fuel first (offset + noise_chunk_size) payload s'
                    (reads p r' frame_last body) past)
              (record {
                no_error = refl;
                inbox =
                    ap (λ x. keep p.inbox x.1) q
                    ∙ ap (λ z. p.inbox ++ complete z p.session.is_json ∷ [])
                        (joined ∙ take_all (offset + noise_chunk_size) payload past);
                closed = ap (λ x. x.0.reassembly) q;
                paired =
                    subst (λ (x : NoiseSession c × Received). Paired k s' x.0.recv) (sym q)
                      (fewer k n s' r' (omega arith) paired);
              })
      ]
    where
      body : Bytes
      body = take noise_chunk_size (drop offset payload)

      joined : p.session.reassembly ++ body ≡ take (offset + noise_chunk_size) payload
      joined = rw h4 (sym (take-add offset noise_chunk_size payload))

      fits : length (p.session.reassembly ++ body) ≤ noise_max_reassembly
      fits = rw joined (omega (arith, length-take-le (offset + noise_chunk_size) payload))

      is_open : is_empty p.session.reassembly ≡ false
      is_open = rw h4 (take_open offset payload h0 (omega arith))

      at_marker :
          (marker : ℕ)
          → chunk_marker first offset (length payload) ≡ marker
          → put_frame c deliver (chunk_marker first offset (length payload)) body s p
            ≡ put_frame c deliver marker body s p
      at_marker marker m = ap (λ x. put_frame c deliver x body s p) m

  send_first-Arrived :
      (fuel k n : ℕ) (payload : Bytes) (is_json : Bool) (s : c.State) (p : Peer c)
      → noise_chunk_size < length payload
      → length payload ≤ fuel
      → length payload ≤ noise_max_reassembly
      → p.session.reassembly ≡ []
      → fuel + k ≤ n
      → Paired (suc n) s p.session.recv
      → Arrived pair k payload is_json p.inbox (
          send_chunks c deliver fuel
            (if is_json then frame_first_json else frame_first_binary)
            0
            payload
            s
            p)
  send_first-Arrived zero k n payload is_json s p h1 h2 h3 idle h5 h = absurd (omega arith)
  send_first-Arrived (suc fuel) k n payload is_json s p h1 h2 h3 idle h5 h =
      let first = if is_json then frame_first_json else frame_first_binary in
      let body = take noise_chunk_size payload in
      let (s', r', e, paired) = put_frame-deliver pair n first body s p h in
      let q =
        read_first (record p.session { recv = r' }) is_json body idle
          (omega (arith, length-take-le noise_chunk_size payload)) in
      rw
        (send_chunks_step c deliver fuel first 0 payload s s' p (reads p r' first body)
            (omega arith)
            (ap (λ x. put_frame c deliver x body s p) (marker_first first (length payload)) ∙ e)
          ∙ ap
              (λ (x : NoiseSession c × Received).
                send_chunks c deliver fuel first (0 + noise_chunk_size) payload s'
                  (record { session = x.0; inbox = keep p.inbox x.1 }))
              q)
        (send_chunks-Arrived fuel k n first (0 + noise_chunk_size) payload s'
          (record {
            session = record p.session { recv = r'; reassembly = body; is_json = is_json };
            inbox = p.inbox;
          })
          (omega (arith, chunk_pos)) (omega arith) (omega (arith, chunk_pos)) h3
          (ap (λ m. take m payload) (omega arith)) (omega arith) paired)

  -- A message handed to sendMessage, whatever its size up to the 32 MiB cap, reaches the peer
  -- whole, with its kind, as one message after those that it had, when the peer has no message in
  -- progress and there are more nonces left than the message has bytes; sendMessage reports no
  -- error, and the two cipher states stay paired.
  pub send_message-Arrived :
      (k : ℕ) (payload : Bytes) (is_json : Bool) (s : c.State) (p : Peer c)
      → length payload ≤ noise_max_reassembly
      → p.session.reassembly ≡ []
      → Paired (suc (length payload) + k) s p.session.recv
      → Arrived pair k payload is_json p.inbox (send_message c deliver payload is_json s p)
  unfolding send_message
  send_message-Arrived k payload is_json s p fits idle h =
      elim (Bool-cases (leb (length payload) noise_chunk_size)) [
        | inl small ↦
            let single = if is_json then frame_json else frame_binary in
            let (s', r', e, paired) =
              put_frame-deliver pair k single payload s p
                (fewer (suc k) (suc (length payload) + k) s p.session.recv (omega arith) h) in
            let q = read_single (record p.session { recv = r' }) is_json payload idle in
            rw (small, e)
              (record {
                no_error = refl;
                inbox = ap (λ x. keep p.inbox x.1) q;
                closed = ap (λ x. x.0.reassembly) q ∙ idle;
                paired =
                    subst (λ (x : NoiseSession c × Received). Paired k s' x.0.recv) (sym q) paired;
              })
        | inr large ↦ rw large (
            send_first-Arrived (length payload) k (length payload + k) payload is_json s p
              (ground arith) (omega arith) fits idle (omega arith)
              (fewer (suc (length payload + k)) (suc (length payload) + k) s p.session.recv
                (omega arith) h))
      ]
