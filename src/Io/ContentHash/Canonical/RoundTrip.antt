-- ===== src/Io/ContentHash/Canonical/RoundTrip.antt =====
-- src/io/content_hash.cpp: the bytes of the encodings, and the chunks that they are hashed in.
use native.Mathlib.Nat.{div-div-eq-div-mul}
use hyowon.Common.{
  ℕ, zero, suc, ◌+◌, ◌*◌, ◌/◌, ◌%◌, ◌^◌, ◌≤◌, ◌<◌, ◌≡◌, refl, sym, ap, subst, ◌∙◌, inl, inr, true,
  false, some, List, [], ◌∷◌, ◌++◌, ◌==◌, arith, take, drop, length, map, All, length-append,
  length-drop, append_assoc, append-nil, length-zero, take-append-drop, Bool-cases, Outcome, done,
  thrown, ◌>>=◌, mod_split, pow-add,
}
use hyowon.Math.ExactPositiveSum.{is_finite}
use hyowon.Io.ContentHash.{Impl, Error, uint64, update}
use hyowon.Io.ContentHash.Streaming.{Holds, update-Holds}
use hyowon.Io.ContentHash.Canonical.{
  encode_loop, encode_little_endian_u64, encode_all, uint64_loop, update_canonical_uint64,
  canonical, encode_before, encode_reals, real_loop, update_canonical_real,
}

-- The integer with these bytes, the lowest first.
unfoldable pub little_endian : List ℕ → ℕ
little_endian [] = 0
little_endian (byte ∷ bytes) = byte + 2 ^ 8 * little_endian bytes

encode_loop-digits :
    (left offset value : ℕ)
    → little_endian (encode_loop left offset value) ≡ value / 2 ^ (8 * offset) % 2 ^ (8 * left)
unfolding little_endian encode_loop
encode_loop-digits zero offset value = omega arith
encode_loop-digits (suc left) offset value =
    let next : 8 * (offset + 1) ≡ 8 * offset + 8 = omega arith in
    let above : value / 2 ^ (8 * (offset + 1)) ≡ value / 2 ^ (8 * offset) / 2 ^ 8 =
      rw (next, pow-add) (sym (div-div-eq-div-mul _ _ _)) in
    let wide : 8 * suc left ≡ 8 + 8 * left = omega arith in
    let split = mod_split (value / 2 ^ (8 * offset)) (2 ^ 8) (2 ^ (8 * left)) in
    rw (encode_loop-digits left (offset + 1) value, above, wide, pow-add) (sym split)

-- Eight bytes give back every 64-bit integer.
pub little_endian-encode :
    (value : ℕ) → value < uint64 → little_endian (encode_little_endian_u64 value) ≡ value
unfolding encode_little_endian_u64
little_endian-encode value h = encode_loop-digits 8 0 value ∙ omega arith

length-encode : (value : ℕ) → length (encode_little_endian_u64 value) ≡ 8
unfolding encode_little_endian_u64 encode_loop
length-encode value = refl

pub length-encode_all : (values : List ℕ) → length (encode_all values) ≡ 8 * length values
unfolding encode_all
length-encode_all [] = refl
length-encode_all (v ∷ values) =
    rw (length-append, length-encode, length-encode_all values) (omega arith)

-- The bytes of integers, eight for each, its lowest first.
pub data IsLittleEndian : List ℕ → List ℕ → Type 0 where
  no_value : IsLittleEndian [] []
  value_bytes :
      (value : ℕ) (values bytes : List ℕ)
      → IsLittleEndian values bytes
      → IsLittleEndian (value ∷ values) (
          value % 2 ^ 8
          ∷ value / 2 ^ 8 % 2 ^ 8
          ∷ value / 2 ^ 16 % 2 ^ 8
          ∷ value / 2 ^ 24 % 2 ^ 8
          ∷ value / 2 ^ 32 % 2 ^ 8
          ∷ value / 2 ^ 40 % 2 ^ 8
          ∷ value / 2 ^ 48 % 2 ^ 8
          ∷ value / 2 ^ 56 % 2 ^ 8
          ∷ bytes)

encode_all-IsLittleEndian : (values : List ℕ) → IsLittleEndian values (encode_all values)
unfolding encode_all encode_little_endian_u64 encode_loop
encode_all-IsLittleEndian [] = no_value
encode_all-IsLittleEndian (v ∷ values) =
    let lowest : v / 2 ^ 0 % 2 ^ 8 ≡ v % 2 ^ 8 = omega arith in
    rw lowest (value_bytes v values (encode_all values) (encode_all-IsLittleEndian values))

encode_all-append : (xs ys : List ℕ) → encode_all (xs ++ ys) ≡ encode_all xs ++ encode_all ys
unfolding encode_all
encode_all-append [] ys = refl
encode_all-append (x ∷ xs) ys =
    rw (encode_all-append xs ys) (sym (append_assoc (encode_little_endian_u64 x) _ _))

uint64_loop-Holds :
    (fuel : ℕ) (s : Impl) (m values : List ℕ)
    → length values ≤ fuel
    → Holds s m
    → length m + 8 * length values < uint64
    → (t : Impl) × (uint64_loop fuel s values ≡ done t) × Holds t (m ++ encode_all values)
unfolding uint64_loop encode_all
uint64_loop-Holds zero s m values h holds fits =
    (s, refl, rw (length-zero values (omega arith), append-nil) holds)
uint64_loop-Holds (suc fuel) s m [] h holds fits = (s, refl, rw append-nil holds)
uint64_loop-Holds (suc fuel) s m (v ∷ vs) h holds fits =
    let values : List ℕ = v ∷ vs in
    let chunk : List ℕ = take 4096 values in
    let more : (length values == 0) ≡ false = ground arith in
    let whole : encode_all chunk ++ encode_all (drop 4096 values) ≡ encode_all values =
      sym (encode_all-append chunk (drop 4096 values))
      ∙ ap encode_all (take-append-drop 4096 values) in
    let size : length (encode_all chunk) + length (encode_all (drop 4096 values))
        ≡ 8 * length values =
      sym (length-append (encode_all chunk) _) ∙ ap length whole ∙ length-encode_all values in
    let (t, updated, next) = update-Holds s m (encode_all chunk) holds (omega arith) in
    let (u, looped, last) =
      uint64_loop-Holds fuel t (m ++ encode_all chunk) (drop 4096 values)
        (rw length-drop (omega arith)) next
        (rw (length-append, ← length-encode_all) (omega arith)) in
    (
      u,
      rw (more, updated) looped,
      subst (Holds u) (append_assoc m _ _ ∙ ap (λ (z : List ℕ). m ++ z) whole) last,
    )

-- The integers are hashed as the bytes of all of them, eight for each and the lowest first: the
-- chunks leave no trace, and nothing is thrown while the byte count fits.
pub update_canonical_uint64-Holds :
    (s : Impl) (m values : List ℕ)
    → Holds s m
    → length m + 8 * length values < uint64
    → (t : Impl) × (bytes : List ℕ) × (update_canonical_uint64 s values ≡ done t)
      × IsLittleEndian values bytes
      × Holds t (m ++ bytes)
unfolding update_canonical_uint64
update_canonical_uint64-Holds s m values holds fits =
    let (t, updated, held) =
      uint64_loop-Holds (length values) s m values (omega arith) holds fits in
    (t, encode_all values, updated, encode_all-IsLittleEndian values, held)

encode_reals-finite :
    (values : List ℕ)
    → All (λ v. is_finite v ≡ true) values
    → encode_reals values ≡ some (encode_all (map canonical values))
unfolding encode_reals encode_before encode_all
encode_reals-finite [] h = refl
encode_reals-finite (v ∷ values) h = rw (h.0, encode_reals-finite values h.1) refl

map-take : (n : ℕ) (f : ℕ → ℕ) (xs : List ℕ) → map f (take n xs) ≡ take n (map f xs)
map-take zero f xs = refl
map-take (suc n) f [] = refl
map-take (suc n) f (x ∷ xs) = ap (λ (z : List ℕ). f x ∷ z) (map-take n f xs)

map-drop : (n : ℕ) (f : ℕ → ℕ) (xs : List ℕ) → map f (drop n xs) ≡ drop n (map f xs)
map-drop zero f xs = refl
map-drop (suc n) f [] = refl
map-drop (suc n) f (x ∷ xs) = map-drop n f xs

length-map : (f : ℕ → ℕ) (xs : List ℕ) → length (map f xs) ≡ length xs
length-map f [] = refl
length-map f (x ∷ xs) = ap suc (length-map f xs)

All-take {κ} : (P : ℕ → Type κ) (n : ℕ) (xs : List ℕ) → All P xs → All P (take n xs)
All-take P zero xs h = tt
All-take P (suc n) [] h = tt
All-take P (suc n) (x ∷ xs) h = (h.0, All-take P n xs h.1)

All-drop {κ} : (P : ℕ → Type κ) (n : ℕ) (xs : List ℕ) → All P xs → All P (drop n xs)
All-drop P zero xs h = h
All-drop P (suc n) [] h = tt
All-drop P (suc n) (x ∷ xs) h = All-drop P n xs h.1

bind_same :
    {f g : Impl → Outcome Error Impl} (r : Outcome Error Impl)
    → ((t : Impl) → f t ≡ g t)
    → (r >>= f) ≡ (r >>= g)
bind_same (done t) h = h t
bind_same (thrown e t) h = refl

real_loop-eq :
    (fuel : ℕ) (s : Impl) (values : List ℕ)
    → All (λ v. is_finite v ≡ true) values
    → real_loop fuel s values ≡ uint64_loop fuel s (map canonical values)
unfolding real_loop uint64_loop
real_loop-eq zero s values h = refl
real_loop-eq (suc fuel) s values h =
    let chunk = All-take (λ v. is_finite v ≡ true) 4096 values h in
    elim (Bool-cases (length values == 0)) [
      | inl nothing ↦ rw (length-map, nothing) refl
      | inr more ↦
          rw (length-map, more, encode_reals-finite _ chunk, map-take, ← map-drop)
            (bind_same (update s (encode_all (take 4096 (map canonical values)))) (λ t.
              real_loop-eq fuel t (drop 4096 values)
                (All-drop (λ v. is_finite v ≡ true) 4096 values h)))
    ]

-- Finite real numbers are hashed as the integers of their bit patterns, with -0 read as +0.
pub update_canonical_real-eq :
    (s : Impl) (values : List ℕ)
    → All (λ v. is_finite v ≡ true) values
    → update_canonical_real s values ≡ update_canonical_uint64 s (map canonical values)
unfolding update_canonical_real update_canonical_uint64
update_canonical_real-eq s values h =
    real_loop-eq (length values) s values h
    ∙ ap (λ (n : ℕ). uint64_loop n s (map canonical values)) (sym (length-map canonical values))
