-- ===== src/Download/Fetch/Exact.antt =====
-- The file that `fetchFiles` of node/getHandle.go puts together.
use de_oss.Base.{
  ◌≡◌, ◌≢◌, ◌≤◌, ◌<◌, ◌+◌, ◌*◌, ◌-◌, refl, ap, sym, ◌∙◌, inl, inr, ℕ, zero, suc, String, List, [],
  ◌∷◌, ◌++◌, none, some, length, leb, if◌then◌else◌, string_eq, arith, Option-cases, length-append,
}
use de_oss.Base.Dict
use de_oss.Base.Dict.{Dict}
use de_oss.Base.Word.{two_64}
use de_oss.Access.Library.{Bytes}
use de_oss.Peers.{PeerList}
use de_oss.Download.{Remote, Sizes, Files}
use de_oss.Download.Fetch.{go, take, sub_64, reslice, append_to, write_segments}
use de_oss.Download.Fetch.Parts.{IsTrue}

-- The segments' contents, one after the other.
abbrev pub joined : (String → Bytes) → List String → Bytes
joined content [] = []
joined content (h ∷ hs) = content h ++ joined content hs

take_all : (n : ℕ) (b : Bytes) → length b ≤ n → take n b ≡ b
unfolding take
take_all zero [] h = refl
take_all zero (x ∷ b) h = absurd (omega (arith, h))
take_all (suc n) [] h = refl
take_all (suc n) (x ∷ b) h = ap (λ l. x ∷ l) (take_all n b (omega (arith, h)))

take-nil : (n : ℕ) → take n [] ≡ []
unfolding take
take-nil zero = refl
take-nil (suc n) = refl

take-append : (b c : Bytes) (m n : ℕ) → m ≡ length b + n → take m (b ++ c) ≡ b ++ take n c
unfolding take
take-append [] c m n e = ap (λ k. take k c) (omega (arith, e))
take-append (x ∷ b) c zero n e = absurd (omega (arith, e))
take-append (x ∷ b) c (suc m) n e = ap (λ l. x ∷ l) (take-append b c m n (omega (arith, e)))

take-append_short : (b c : Bytes) (n : ℕ) → n ≤ length b → take n (b ++ c) ≡ take n b
unfolding take
take-append_short b c zero h = refl
take-append_short [] c (suc n) h = absurd (omega (arith, h))
take-append_short (x ∷ b) c (suc n) h = ap (λ l. x ∷ l) (take-append_short b c n (omega (arith, h)))

append_nil : (b : Bytes) → b ++ [] ≡ b
append_nil [] = refl
append_nil (x ∷ b) = ap (λ l. x ∷ l) (append_nil b)

append_assoc : (a b c : Bytes) → (a ++ b) ++ c ≡ a ++ (b ++ c)
append_assoc [] b c = refl
append_assoc (x ∷ a) b c = ap (λ l. x ∷ l) (append_assoc a b c)

pub length-take : (n : ℕ) (b : Bytes) → n ≤ length b → length (take n b) ≡ n
unfolding take
length-take zero b h = refl
length-take (suc n) [] h = absurd (omega (arith, h))
length-take (suc n) (x ∷ b) h = ap suc (length-take n b (omega (arith, h)))

sub_64-exact : (a b : ℕ) → b ≤ a → a < two_64 → sub_64 a b ≡ a - b
sub_64-exact a b h l = omega (arith, h, l)

times-suc : (a b : ℕ) → (a + 1) * b ≡ a * b + b
times-suc a b = omega arith

module _ (content : String → Bytes) (R : Remote) (sizes : Sizes) (os : Files) (peers : PeerList)
    (root : String) (part : String → Type 0) (apart : (h : String) → part h → h ≢ root) where
  -- Every segment is of full size.
  abbrev pub AllFull : List String → Type 0
  AllFull [] = Unit
  AllFull (h ∷ hs) = (part h × (length (content h) ≡ sizes.segment_size)) × AllFull hs

  append_to-root :
      (old b : Bytes) (d : Dict String Bytes)
      → Dict.lookup root d ≡ some old
      → Dict.lookup root (append_to root b d) ≡ some (old ++ b)
  append_to-root old b d e = ground (arith, e, Dict.lookup-insert root root (old ++ b) d)

  append_to-IsTrue :
      (b : Bytes) (d : Dict String Bytes)
      → IsTrue content part d
      → IsTrue content part (append_to root b d)
  append_to-IsTrue b d t name c p f =
      let new = elim (Dict.lookup root d) as (λ _. Bytes) [ none ↦ b | some old ↦ old ++ b ] in
      t name c p (ground (arith, Dict.lookup-insert name root new d, apart name p, f))

  -- The bytes that are written of one segment: all of them, or those that are left of the size.
  reslice_exact :
      (size count : ℕ) (p : String)
      → length (content p) ≡ sizes.segment_size
      → count * sizes.segment_size ≤ size
      → size ≤ count * sizes.segment_size + sizes.segment_size
      → size < two_64
      → reslice os.capacity (content p) (sub_64 size (count * sizes.segment_size))
        ≡ some (take (size - count * sizes.segment_size) (content p))
  reslice_exact size count p full low up fit =
      let exact = sub_64-exact size (count * sizes.segment_size) low fit in
      ap (reslice os.capacity (content p)) exact ∙ ground (arith, full, up, low)

  -- One round of the loop, which writes `out`.
  write_segments-step :
      (size n count : ℕ) (p : String) (ps : List String) (out : Bytes) (d : Dict String Bytes)
      → ((b : Bytes) → os.written b ≡ b)
      → (if os.reads p then Dict.lookup p d else none) ≡ some (content p)
      → (if leb n (count + 1)
          then reslice os.capacity (content p) (sub_64 size (count * sizes.segment_size))
          else some (content p))
        ≡ some out
      → write_segments R sizes os peers root size n count (p ∷ ps) d
        ≡ write_segments R sizes os peers root size n (count + 1) ps (append_to root out d)
  unfolding write_segments
  write_segments-step size n count p ps out d whole q cut =
      ground (arith, q, cut)
      ∙ ap (λ b. write_segments R sizes os peers root size n (count + 1) ps (append_to root b d))
          (whole out)

  -- A segment that is found is right, since otherwise the program exits.
  segment_found :
      (size n count c : ℕ) (p : String) (ps : List String) (d : Dict String Bytes)
      → part p
      → IsTrue content part d
      → (write_segments R sizes os peers root size n count (p ∷ ps) d).0 ≡ go c
      → (if os.reads p then Dict.lookup p d else none) ≡ some (content p)
  unfolding write_segments
  segment_found size n count c p ps d q t ok =
      elim (Option-cases (if os.reads p then Dict.lookup p d else none)) [
        | inl a ↦ absurd (ground (arith, a, ok))
        | inr (buf, a) ↦ a ∙ ap some (t p buf q (ground (arith, a)))
      ]

  -- What is written after `count` segments, with `old` in the file.
  pub write_segments-exact :
      (size n count c : ℕ) (hs : List String) (old : Bytes) (d : Dict String Bytes)
      → ((b : Bytes) → os.written b ≡ b)
      → AllFull hs
      → IsTrue content part d
      → Dict.lookup root d ≡ some old
      → n ≡ count + length hs
      → count * sizes.segment_size ≤ size
      → size ≤ count * sizes.segment_size + length (joined content hs)
      → count * sizes.segment_size + length (joined content hs) ≤ size + sizes.segment_size
      → size < two_64
      → (write_segments R sizes os peers root size n count hs d).0 ≡ go c
      → Dict.lookup root (write_segments R sizes os peers root size n count hs d).1
        ≡ some (old ++ take (size - count * sizes.segment_size) (joined content hs))
  unfolding write_segments
  write_segments-exact size n count c [] old d whole full t e len low up most fit ok =
      e ∙ ap some (sym (append_nil old)) ∙ ap (λ l. some (old ++ l)) (sym (take-nil _))
  write_segments-exact size n count c (p ∷ []) old d whole full t e len low up most fit ok =
      let left = size - count * sizes.segment_size in
      let room = length-append (content p) [] in
      let exact = reslice_exact size count p full.0.1 low (omega (arith, up, room, full.0.1)) fit in
      let step =
        write_segments-step size n count p [] (take left (content p)) d whole
          (segment_found size n count c p [] d full.0.0 t ok) (ground (arith, len, exact)) in
      ap (λ r. Dict.lookup root r.1) step
      ∙ append_to-root old (take left (content p)) d e
      ∙ ap (λ l. some (old ++ take left l)) (sym (append_nil (content p)))
  write_segments-exact size n count c (p ∷ p' ∷ ps) old d whole full t e len low up most fit ok =
      let rest = joined content (p' ∷ ps) in
      let size' = sizes.segment_size in
      let next = times-suc count size' in
      let f = full.0.1 in
      let g = full.1.0.1 in
      let all = length-append (content p) rest in
      let tail = length-append (content p') (joined content ps) in
      let step =
        write_segments-step size n count p (p' ∷ ps) (content p) d whole
          (segment_found size n count c p (p' ∷ ps) d full.0.0 t ok) (ground (arith, len)) in
      let d' = append_to root (content p) d in
      let rec =
        write_segments-exact size n (count + 1) c (p' ∷ ps) (old ++ content p) d' whole full.1
          (append_to-IsTrue (content p) d t) (append_to-root old (content p) d e)
          (omega (arith, len)) (omega (arith, next, most, all, tail, f, g))
          (omega (arith, next, up, all, f)) (omega (arith, next, most, all, f)) fit
          (ap (λ r. r.0) (sym step) ∙ ok) in
      let cut =
        take-append (content p) rest (size - count * size') (size - (count + 1) * size')
          (omega (arith, next, most, all, tail, f, g)) in
      ap (λ r. Dict.lookup root r.1) step
      ∙ rec
      ∙ ap some (append_assoc old (content p) (take (size - (count + 1) * size') rest))
      ∙ ap (λ l. some (old ++ l)) (sym cut)
