-- ===== src/Wire/RoundTrip.antt =====
-- syncedfs-common/message_functions.c: what is packed is received.
use syncedfs.Prelude.{
  ℕ, zero, suc, ◌+◌, ◌/◌, ◌%◌, ◌^◌, ◌<◌, ◌≤◌, ◌≡◌, refl, Bool, true, false, none, some, List, [],
  ◌∷◌, ◌++◌, length, take, drop, ltb, arith, ap, ◌∙◌, length-append, lt→ltb, Bool-cases, inl, inr,
}
use syncedfs.Message.{Message, init, response, finish, chunk}
use syncedfs.Wire.{
  Codecs, type_of, htonl_bytes, ntohl, frame, read_length, unpack_counted, recv_body,
  recv_message_from, recv_message,
}

-- The length goes through the network byte order unchanged.
pub ntohl-htonl :
    (n : ℕ)
    → n < 2 ^ 32
    → ntohl (n / 2 ^ 24 % 256) (n / 2 ^ 16 % 256) (n / 2 ^ 8 % 256) (n % 256) ≡ n
ntohl-htonl n h = omega (arith, h)

pub read_length-frame :
    (packed rest : List ℕ)
    → length packed < 2 ^ 32
    → read_length (frame packed ++ rest) ≡ some (length packed, packed ++ rest)
unfolding read_length frame htonl_bytes
read_length-frame packed rest h =
    let e : length packed % 2 ^ 32 ≡ length packed = omega (arith, h) in
    let k = ntohl-htonl (length packed % 2 ^ 32) (omega (arith, h)) in
    ap (λ n. some (n, packed ++ rest)) (k ∙ e)

module _ {ℓ} {A : Type ℓ} where
  pub take-append : (xs ys : List A) → take (length xs) (xs ++ ys) ≡ xs
  take-append [] ys = refl
  take-append (x ∷ xs) ys = rw (take-append xs ys) refl

  pub drop-append : (xs ys : List A) → drop (length xs) (xs ++ ys) ≡ ys
  drop-append [] ys = refl
  drop-append (x ∷ xs) ys = drop-append xs ys

  pub ltb-append : (xs ys : List A) → ltb (length (xs ++ ys)) (length xs) ≡ false
  ltb-append xs ys = ground (arith, length-append xs ys)

pub read_length-short :
    (packed : List ℕ) (k : ℕ) → k < 4 → read_length (take k (frame packed)) ≡ none
unfolding read_length frame htonl_bytes
read_length-short packed zero lt = refl
read_length-short packed (suc zero) lt = refl
read_length-short packed (suc (suc zero)) lt = refl
read_length-short packed (suc (suc (suc zero))) lt = refl
read_length-short packed (suc (suc (suc (suc k)))) lt = absurd (omega (arith, lt))

pub length-take : (i : ℕ) (xs : List ℕ) → length (take i xs) ≤ i
length-take zero xs = omega arith
length-take (suc i) [] = omega arith
length-take (suc i) (x ∷ xs) = omega (arith, length-take i xs)

-- The beginning of a frame gives more bytes than there are.
pub read_length-part :
    (packed : List ℕ) (k : ℕ)
    → length packed < 2 ^ 32
    → 4 ≤ k
    → k < 4 + length packed
    → (part : List ℕ) × (read_length (take k (frame packed)) ≡ some (length packed, part))
      × (length part < length packed)
unfolding read_length frame htonl_bytes
read_length-part packed zero h le lt = absurd (omega (arith, le))
read_length-part packed (suc zero) h le lt = absurd (omega (arith, le))
read_length-part packed (suc (suc zero)) h le lt = absurd (omega (arith, le))
read_length-part packed (suc (suc (suc zero))) h le lt = absurd (omega (arith, le))
read_length-part packed (suc (suc (suc (suc k)))) h le lt =
    let e : length packed % 2 ^ 32 ≡ length packed = omega (arith, h) in
    let n = ntohl-htonl (length packed % 2 ^ 32) (omega (arith, h)) in
    (
      take k packed,
      ap (λ i. some (i, take k packed)) (n ∙ e),
      omega (arith, lt, length-take k packed),
    )

module _ (C : Codecs) (allocates : ℕ → Bool) where
  unpack_counted-of :
      (m : Message) (n : ℕ) (body left : List ℕ) (bytesread : ℕ)
      → unpack_counted C allocates (type_of m) n body left bytesread
        ≡ record { message = C.unpack (type_of m) body; left = left; bytesread = bytesread + n + 4 }
  unfolding unpack_counted
  unpack_counted-of (init m) n body left bytesread = refl
  unpack_counted-of (response m) n body left bytesread = refl
  unpack_counted-of (finish m) n body left bytesread = refl
  unpack_counted-of (chunk m) n body left bytesread = refl

  -- If protobuf-c unpacks what it has packed of a message, in less than 2 ^ 32 bytes, recvMessage
  -- gets the message back from the bytes that packMessage has made, takes none of the bytes behind
  -- it, and counts the packed bytes and four for their length, while allocation succeeds.
  pub recv_message-frame :
      (m : Message) (rest : List ℕ) (bytesread : ℕ)
      → C.unpack (type_of m) (C.pack m) ≡ some m
      → ((n : ℕ) → allocates n ≡ true)
      → length (C.pack m) < 2 ^ 32
      → recv_message C allocates (type_of m) (frame (C.pack m) ++ rest) bytesread
        ≡ record { message = some m; left = rest; bytesread = bytesread + length (C.pack m) + 4 }
  unfolding recv_message recv_message_from recv_body
  recv_message-frame m rest bytesread back allocated short =
      let packed = C.pack m in
      rw
        (
          read_length-frame packed rest short,
          allocated (length packed),
          ltb-append packed rest,
          take-append packed rest,
          drop-append packed rest,
          unpack_counted-of m (length packed) packed rest bytesread,
          back,
        )
        refl

  -- While allocation succeeds, a message of less than 2 ^ 32 packed bytes of which the connection
  -- brings only the beginning is not received, and not counted.
  pub recv_message-take :
      (m : Message) (k bytesread : ℕ)
      → ((n : ℕ) → allocates n ≡ true)
      → length (C.pack m) < 2 ^ 32
      → k < 4 + length (C.pack m)
      → recv_message C allocates (type_of m) (take k (frame (C.pack m))) bytesread
        ≡ record { message = none; left = []; bytesread = bytesread }
  unfolding recv_message recv_message_from recv_body
  recv_message-take m k bytesread allocated short lt = elim (Bool-cases (ltb k 4)) [
    | inl y ↦ rw (read_length-short (C.pack m) k (ground (arith, y))) refl
    | inr n ↦
        let (part, e, less) = read_length-part (C.pack m) k short (ground (arith, n)) lt in
        rw (e, allocated (length (C.pack m)), lt→ltb (length part) (length (C.pack m)) less) refl
  ]
