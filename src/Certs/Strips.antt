-- ===== src/Certs/Strips.antt =====
-- Lines and stripped texts of a certificate file.
use pyzmq.Base.{
  ℕ, ◌≡◌, refl, ap, ◌∙◌, Bool, true, false, List, [], ◌∷◌, ◌++◌, arith, ◌==◌, Bytes, All,
}
use pyzmq.Certs.{add_to_line, lines_of, strip_left, strip_right, strip}

-- A line has no line feed.
abbrev pub IsLine : Bytes → Type 0
IsLine = All (λ c. (c == b'\n') ≡ false)

lines_of-append :
    (line rest : Bytes) → IsLine line → lines_of (line ++ (b'\n' ∷ rest)) ≡ line ∷ lines_of rest
unfolding lines_of add_to_line
lines_of-append [] rest h = refl
lines_of-append (c ∷ cs) rest (h, hs) = rw (h, lines_of-append cs rest hs) refl

unfoldable pub text_of : List Bytes → Bytes
text_of [] = []
text_of (line ∷ lines) = line ++ (b'\n' ∷ text_of lines)

-- Reading line by line gives the lines that were written.
pub lines_of-text_of : (lines : List Bytes) → All IsLine lines → lines_of (text_of lines) ≡ lines
unfolding text_of lines_of
lines_of-text_of [] h = refl
lines_of-text_of (line ∷ lines) (h, hs) =
    lines_of-append line (text_of lines) h ∙ ap (λ l. line ∷ l) (lines_of-text_of lines hs)

module _ (p : ℕ → Bool) where
  -- What ends in a byte that is not stripped stays.
  pub strip_right-append :
      (xs : Bytes) (c : ℕ) → p c ≡ false → strip_right p (xs ++ (c ∷ [])) ≡ xs ++ (c ∷ [])
  unfolding strip_right
  strip_right-append [] c h = rw h refl
  strip_right-append (x ∷ []) c h = rw h (ground arith)
  strip_right-append (x ∷ y ∷ ys) c h = rw (strip_right-append (y ∷ ys) c h) (ground arith)

  -- Bytes that are not stripped, and after them one that is.
  strip_right_end :
      (xs : Bytes) (c : ℕ)
      → p c ≡ true
      → All (λ x. p x ≡ false) xs
      → strip_right p (xs ++ (c ∷ [])) ≡ xs
  unfolding strip_right
  strip_right_end [] c h k = rw h refl
  strip_right_end (x ∷ xs) c h (k, ks) = rw (k, strip_right_end xs c h ks) refl

  pub strip_between :
      (a b : ℕ) (x : ℕ) (xs : Bytes)
      → p a ≡ true
      → p b ≡ true
      → All (λ x. p x ≡ false) (x ∷ xs)
      → strip p (a ∷ b ∷ ((x ∷ xs) ++ (b ∷ []))) ≡ x ∷ xs
  unfolding strip strip_left
  strip_between a b x xs h h' (k, ks) = rw (h, h', k) (strip_right_end (x ∷ xs) b h' (k, ks))
