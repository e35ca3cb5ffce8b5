-- ===== src/Prelude/Bytes/Layout.antt =====
-- Records laid out as fields one behind the other, and `copy_from_slice` into a buffer.
use kavach_npu.Prelude.Lists.{
  length, get_or, take, drop, replicate, length-append, take-append, drop-append_add,
  drop-replicate, take-append-drop,
}
use Prim.Native.Nat.{ℕ, zero, suc, ◌+◌, ◌-◌, ◌^◌, ◌≤◌, ◌<◌}
use mathlib.Core.Path.{◌≡◌, refl, sym, ap, ap₂, ◌∙◌}
use mathlib.Core.List.{List, [], ◌∷◌, ◌++◌, append_assoc}
use native.Mathlib.Omega.{arith}
use kavach_npu.Prelude.Bytes.Encoding.{
  be_bytes, from_be, length-be_bytes, drop_nil_fields, drop_all, from_be-be_bytes,
}
use kavach_npu.Prelude.Bytes.Slices.{slice, rest_from, byte_at, be_at, drop-drop}

-- Fields one behind the other.
abbrev pub flatten : List (List ℕ) → List ℕ
flatten [] = []
flatten (f ∷ fs) = f ++ flatten fs

-- Where the i-th field starts.
abbrev pub offset : List (List ℕ) → ℕ → ℕ
offset [] i = 0
offset (f ∷ fs) zero = 0
offset (f ∷ fs) (suc i) = length f + offset fs i

-- A slice at a field's place is the field.
pub slice-flatten :
    (fs : List (List ℕ)) (i m n : ℕ)
    → m ≡ offset fs i
    → n ≡ m + length (get_or fs i [])
    → slice m n (flatten fs) ≡ get_or fs i []
unfolding slice
slice-flatten [] i m n hm hn =
    let none_left : n - m ≡ 0 = omega arith in ap₂ (λ k l. take {A = ℕ} k (drop l [])) none_left hm
slice-flatten (f ∷ fs) zero m n hm hn =
    ap₂ (λ k l. take k (drop l (f ++ flatten fs))) (omega arith) hm ∙ take-append f (flatten fs)
slice-flatten (f ∷ fs) (suc i) m n hm hn =
    ap (take (n - m)) (drop-append_add f (flatten fs) m (m - length f) (omega arith))
    ∙ ap (λ k. take k (drop (m - length f) (flatten fs))) (omega arith)
    ∙ slice-flatten fs i (m - length f) (n - length f) (omega arith) (omega arith)

-- Dropping up to a field's place leaves it and the fields behind it.
pub rest_from-flatten :
    (fs : List (List ℕ)) (i m : ℕ)
    → m ≡ offset fs i
    → rest_from m (flatten fs) ≡ flatten (drop i fs)
unfolding rest_from
rest_from-flatten [] i m hm = ap (λ k. drop {A = ℕ} k []) hm ∙ ap flatten (sym (drop_nil_fields i))
rest_from-flatten (f ∷ fs) zero m hm = ap (λ k. drop k (f ++ flatten fs)) hm
rest_from-flatten (f ∷ fs) (suc i) m hm =
    drop-append_add f (flatten fs) m (m - length f) (omega arith)
    ∙ rest_from-flatten fs i (m - length f) (omega arith)

-- A field that is a number of `k` bytes.
pub be_at-flatten :
    (fs : List (List ℕ)) (i m n k x : ℕ)
    → get_or fs i [] ≡ be_bytes k x
    → m ≡ offset fs i
    → n ≡ m + k
    → x < 256 ^ k
    → be_at m n (flatten fs) ≡ x
be_at-flatten fs i m n k x field hm hn hx =
    let wide : n ≡ m + length (get_or fs i []) =
      omega (arith, ap length field, length-be_bytes k x) in
    ap from_be (slice-flatten fs i m n hm wide ∙ field) ∙ from_be-be_bytes k x hx

byte_at-append_add :
    (f rest : List ℕ) (m n : ℕ) → m ≡ length f + n → byte_at m (f ++ rest) ≡ byte_at n rest
unfolding byte_at
byte_at-append_add [] rest m n h = ap (λ k. byte_at k rest) (omega arith)
byte_at-append_add (x ∷ f) rest zero n h = absurd (omega arith)
byte_at-append_add (x ∷ f) rest (suc m) n h = byte_at-append_add f rest m n (omega arith)

-- A field of one byte.
pub byte_at-flatten :
    (fs : List (List ℕ)) (i m b : ℕ)
    → m ≡ offset fs i
    → get_or fs i [] ≡ b ∷ []
    → byte_at m (flatten fs) ≡ b
unfolding byte_at
byte_at-flatten [] i m b hm hb = cc
byte_at-flatten (f ∷ fs) zero m b hm hb = ap₂ (λ k l. byte_at k (l ++ flatten fs)) hm hb
byte_at-flatten (f ∷ fs) (suc i) m b hm hb =
    byte_at-append_add f (flatten fs) m (m - length f) (omega arith)
    ∙ byte_at-flatten fs i (m - length f) b (omega arith) hb

-- The slices of a list between the given places, the first from `m` on.
abbrev pub pieces : ℕ → List ℕ → List ℕ → List (List ℕ)
pieces m [] xs = []
pieces m (n ∷ ns) xs = slice m n xs ∷ pieces n ns xs

-- The places rise, and the last is the end.
abbrev pub Cuts : ℕ → List ℕ → ℕ → Type 0
Cuts m [] l = m ≡ l
Cuts m (n ∷ ns) l = (m ≤ n) × Cuts n ns l

-- The slices put together are the rest of the list.
pub flatten-pieces :
    (m : ℕ) (ns xs : List ℕ) → Cuts m ns (length xs) → flatten (pieces m ns xs) ≡ drop m xs
unfolding slice
flatten-pieces m [] xs h = sym (drop_all m xs (omega arith))
flatten-pieces m (n ∷ ns) xs (hm, h) =
    let there : m + (n - m) ≡ n = omega arith in
    ap (◌++◌ (take (n - m) (drop m xs)))
      (flatten-pieces n ns xs h ∙ sym (drop-drop m (n - m) xs ∙ ap (λ j. drop j xs) there))
    ∙ take-append-drop (n - m) (drop m xs)

-- `buf[m..m + f.len()].copy_from_slice(f)`
unfoldable pub copy_into : List ℕ → ℕ → List ℕ → List ℕ
copy_into buf m f = take m buf ++ (f ++ drop (m + length f) buf)

-- A buffer whose front `done` is written and whose rest is zero.
copy_into_next :
    (done f : List ℕ) (m k : ℕ)
    → m ≡ length done
    → length f ≤ k
    → copy_into (done ++ replicate k 0) m f ≡ (done ++ f) ++ replicate (k - length f) 0
unfolding copy_into
copy_into_next done f m k hm hf =
    ap₂ (λ xs ys. xs ++ (f ++ ys))
      (ap (λ j. take j (done ++ replicate k 0)) hm ∙ take-append done (replicate k 0))
      (drop-append_add done (replicate k 0) (m + length f) (length f) (omega arith)
        ∙ drop-replicate (length f) k 0)
    ∙ sym (append_assoc done f (replicate (k - length f) 0))

pub length-flatten : (fs : List (List ℕ)) → length (flatten fs) ≡ offset fs (length fs)
length-flatten [] = refl
length-flatten (f ∷ fs) = omega (arith, length-append {0} f (flatten fs), length-flatten fs)

-- Fields copied one behind the other, the first at `m`.
unfoldable pub copy_fields : List ℕ → ℕ → List (List ℕ) → List ℕ
copy_fields buf m [] = buf
copy_fields buf m (f ∷ fs) = copy_fields (copy_into buf m f) (m + length f) fs

copy_fields_from :
    (fs : List (List ℕ)) (done : List ℕ) (m k : ℕ)
    → m ≡ length done
    → k ≡ length (flatten fs)
    → copy_fields (done ++ replicate k 0) m fs ≡ done ++ flatten fs
unfolding copy_fields
copy_fields_from [] done m k hm hk = ap (λ j. done ++ replicate j 0) hk
copy_fields_from (f ∷ fs) done m k hm hk =
    let total : k ≡ length f + length (flatten fs) =
      omega (arith, length-append {0} f (flatten fs)) in
    ap (λ buf. copy_fields buf (m + length f) fs) (copy_into_next done f m k hm (omega arith))
    ∙ copy_fields_from fs (done ++ f) (m + length f) (k - length f)
        (omega (arith, length-append {0} done f)) (omega arith)
    ∙ append_assoc done f (flatten fs)

-- Fields that fill a zeroed buffer leave nothing else in it.
pub copy_fields-flatten :
    (fs : List (List ℕ)) (k : ℕ)
    → k ≡ length (flatten fs)
    → copy_fields (replicate k 0) 0 fs ≡ flatten fs
copy_fields-flatten fs k h = copy_fields_from fs [] 0 k refl h
