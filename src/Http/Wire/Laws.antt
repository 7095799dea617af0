-- ===== src/Http/Wire/Laws.antt =====
-- The body cap, and how a status decides the outcome.
use mathlib.Core.List.{append-nil, append_assoc}
use genrl_downloader.Prelude.{
  sym, ap, subst, ◌∙◌, ◌↔◌, ℕ, ◌+◌, ◌≤◌, ◌≡◌, false, List, [], ◌++◌, length, length-append, arith,
  ltb, Bool-cases, inl, inr,
}
use genrl_downloader.Text.{Text}
use genrl_downloader.Error.{ok}
use genrl_downloader.Http.Wire.{Chunks, end, chunk, broken, read_from, read_body}

ok_injective : {x y : List ℕ} → ok x ≡ ok y → x ≡ y
ok_injective e = cc

ltb-false : (a b : ℕ) → ltb a b ≡ false → b ≤ a
ltb-false a b h = ground arith

ltb-ge : (a b : ℕ) → b ≤ a → ltb a b ≡ false
ltb-ge a b h = ground arith

-- All the bytes of the chunks.
abbrev pub bytes_of : Chunks → List ℕ
bytes_of end = []
bytes_of (chunk bytes rest) = bytes ++ bytes_of rest
bytes_of (broken e) = []

-- The stream ends without an error.
abbrev pub Whole : Chunks → Type 0
Whole end = Unit
Whole (chunk bytes rest) = Whole rest
Whole (broken e) = ⊥

read_from_within :
    (start : List ℕ) (chunks : Chunks) (cap : ℕ) (url : Text) (limit : ℕ) {body : List ℕ}
    → length start ≤ cap
    → read_from start chunks cap url limit ≡ ok body
    → (length body ≤ cap) × (body ≡ start ++ bytes_of chunks) × Whole chunks
unfolding read_from
read_from_within start end cap url limit {body} h e =
    let same : start ≡ body = ok_injective e in
    (subst (λ x. length x ≤ cap) same h, sym same ∙ sym (append-nil start), tt)
read_from_within start (broken x) cap url limit h e = absurd (cc)
read_from_within start (chunk bytes rest) cap url limit {body} h e =
    elim (Bool-cases (ltb cap (length start + length bytes))) [
      | inl over ↦ absurd (ground (arith, over))
      | inr fits ↦
          let (small, same, whole) =
            read_from_within (start ++ bytes) rest cap url limit {body = body}
              (omega (
                arith,
                length-append start bytes,
                ltb-false cap (length start + length bytes) fits,
              ))
              (ground (arith, fits)) in
          (small, same ∙ append_assoc start bytes (bytes_of rest), whole)
    ]

read_complete :
    (start : List ℕ) (chunks : Chunks) (cap : ℕ) (url : Text) (limit : ℕ)
    → Whole chunks
    → length (start ++ bytes_of chunks) ≤ cap
    → read_from start chunks cap url limit ≡ ok (start ++ bytes_of chunks)
unfolding read_from
read_complete start end cap url limit w h = ap ok (sym (append-nil start))
read_complete start (broken x) cap url limit w h = absurd w
read_complete start (chunk bytes rest) cap url limit w h =
    let fits : ltb cap (length start + length bytes) ≡ false =
      ltb-ge cap (length start + length bytes) (
        omega (
          arith,
          length-append start (bytes ++ bytes_of rest),
          length-append bytes (bytes_of rest),
          h,
        )) in
    let joined = append_assoc start bytes (bytes_of rest) in
    rw fits (rw (← joined) (read_complete (start ++ bytes) rest cap url limit w (rw joined h)))

-- Reading a body under a cap succeeds exactly when the stream ends without an error and all its
-- bytes fit the cap, and then gives exactly those bytes.
pub read_body_iff :
    (chunks : Chunks) (cap : ℕ) (url : Text) (limit : ℕ) (body : List ℕ)
    → (read_body chunks cap url limit ≡ ok body)
      ↔ ((length body ≤ cap) × (body ≡ bytes_of chunks) × Whole chunks)
unfolding read_body
read_body_iff chunks cap url limit body = (
  λ e. read_from_within [] chunks cap url limit (omega arith) e,
  λ h. rw (h.1) (read_complete [] chunks cap url limit h.2 (subst (λ x. length x ≤ cap) h.1 h.0)),
)
