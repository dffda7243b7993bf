-- ===== src/Wire/Serialize/Checksum.antt =====
-- The checksum loop, over an array whose last place is still free.
use ups_server.Base.{
  ℕ, zero, suc, ◌+◌, ◌-◌, ◌%◌, ◌<◌, ◌≡◌, refl, ap, ◌∙◌, Bytes, List, [], ◌∷◌, ◌++◌, append_assoc,
  ok, arith, length, length-append, get_elem?-append,
}
use ups_server.Wire.Array.{read}
use ups_server.Wire.Format.{be32, encode, AreBytes, Matches, sum, unsigned_frame, Fits}
use ups_server.Wire.Message.{Item, word, text, Message}
use ups_server.Wire.Serialize.{checksum_loop, count_and_place_checksum}
use ups_server.Wire.Serialize.Writing.{write-append}

AreBytes-append : (s t : Bytes) → AreBytes s → AreBytes t → AreBytes (s ++ t)
AreBytes-append [] t hs ht = ht
AreBytes-append (b ∷ s) t hs ht = (hs.0, AreBytes-append s t hs.1 ht)

AreBytes-be32 : (x : ℕ) (s : Bytes) → AreBytes s → AreBytes (be32 x ++ s)
AreBytes-be32 x s h = (omega arith, (omega arith, (omega arith, (omega arith, h))))

AreBytes-encode :
    (format : Bytes) (items : List Item) → Matches format items → AreBytes (encode items)
unfolding encode
AreBytes-encode [] [] m = tt
AreBytes-encode [] (x ∷ items) m = elim m [ ]
AreBytes-encode (f ∷ format) [] m = elim m [ ]
AreBytes-encode (f ∷ format) (word x ∷ items) (_, m) =
    AreBytes-be32 x (encode items) (AreBytes-encode format items m)
AreBytes-encode (f ∷ format) (text s ∷ items) ((_, _, h), m) =
    AreBytes-append (be32 (length s) ++ s) (encode items) (AreBytes-be32 (length s) s h)
      (AreBytes-encode format items m)

pub AreBytes-unsigned_frame : (m : Message) → Fits m → AreBytes (unsigned_frame m)
unfolding unsigned_frame
AreBytes-unsigned_frame m fits =
    let n = length (encode m.payload) in
    AreBytes-be32 m.header (be32 (9 + n) ++ encode m.payload) (
      AreBytes-be32 (9 + n) (encode m.payload)
        (AreBytes-encode m.msg_format m.payload fits.payload))

-- The loop adds up what stands before the place of the checksum.
checksum_loop-append :
    (pre xs post : Bytes) (n i acc : ℕ)
    → i ≡ length pre
    → n ≡ length xs
    → acc < 128
    → AreBytes xs
    → checksum_loop n i acc (pre ++ (xs ++ post)) ≡ ok ((acc + sum xs) % 128)
unfolding checksum_loop sum read
checksum_loop-append pre [] post zero i acc e k small h = ap ok (omega arith)
checksum_loop-append pre [] post (suc n) i acc e k small h = absurd (omega arith)
checksum_loop-append pre (x ∷ xs) post zero i acc e k small h = absurd (omega arith)
checksum_loop-append pre (x ∷ xs) post (suc n) i acc e k small (hx, h) =
    let next = (acc + x) % 256 % 128 in
    let total : (next + sum xs) % 128 ≡ (acc + (x + sum xs)) % 128 = omega arith in
    let ih =
      checksum_loop-append (pre ++ x ∷ []) xs post n (i + 1) next
        (omega (arith, length-append pre (x ∷ []))) (omega arith) (omega arith) h in
    rw (get_elem?-append pre (xs ++ post) x i e) (simp append_assoc at ih ∙ ap ok total)

pub count_and_place_checksum-append :
    (body : Bytes) (z size : ℕ)
    → size ≡ suc (length body)
    → AreBytes body
    → count_and_place_checksum (body ++ z ∷ []) size ≡ ok (body ++ (sum body % 128) ∷ [])
unfolding count_and_place_checksum
count_and_place_checksum-append body z size e h =
    let n : size - 1 ≡ length body = omega arith in
    rw
      (
        checksum_loop-append [] body (z ∷ []) (size - 1) 0 0 refl n (omega arith) h,
        write-append body (z ∷ []) (size - 1) 0 ((0 + sum body) % 128) (omega arith),
      )
      (ap (λ (t : ℕ). ok (body ++ t ∷ [])) (omega arith))
