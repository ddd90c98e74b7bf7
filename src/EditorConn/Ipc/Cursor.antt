-- ===== src/EditorConn/Ipc/Cursor.antt =====
-- A position in a buffer, by the bytes that follow it.
use darkpyonix_ember.Base.{
  ℕ, zero, suc, ◌+◌, ◌≤◌, ◌≡◌, refl, ◌∙◌, ap, some, List, [], ◌∷◌, ◌++◌, length, get_elem?, drop,
  drop-add, drop-append, take-append, length-drop, length-append, arith,
}
use darkpyonix_ember.EditorConn.{ok}
use darkpyonix_ember.EditorConn.Ipc.{take}

-- At `at`, which is in `buf` or at its end, `bytes` is what follows.
pub record At (buf : List ℕ) (at : ℕ) (bytes : List ℕ) : Type 0 where
  pub follows : drop at buf ≡ bytes
  pub within : at ≤ length buf

get_elem?-drop :
    (buf : List ℕ) (at b : ℕ) (rest : List ℕ) → drop at buf ≡ b ∷ rest → get_elem? buf at ≡ some b
get_elem?-drop [] zero b rest h = cc
get_elem?-drop [] (suc at) b rest h = cc
get_elem?-drop (x ∷ xs) zero b rest h = ground arith
get_elem?-drop (x ∷ xs) (suc at) b rest h = get_elem?-drop xs at b rest h

pub At-head :
    (buf : List ℕ) (at b : ℕ) (rest : List ℕ) → At buf at (b ∷ rest) → get_elem? buf at ≡ some b
At-head buf at b rest h = get_elem?-drop buf at b rest h.follows

pub At-length :
    (buf : List ℕ) (at : ℕ) (bytes : List ℕ) → At buf at bytes → at + length bytes ≡ length buf
At-length buf at bytes h = omega (arith, length-drop at buf, ap length h.follows, h.within)

pub At-skip :
    (buf : List ℕ) (at : ℕ) (bytes rest : List ℕ)
    → At buf at (bytes ++ rest)
    → At buf (at + length bytes) rest
At-skip buf at bytes rest h = record {
  follows =
      drop-add at (length bytes) buf ∙ ap (drop (length bytes)) h.follows ∙ drop-append bytes rest;
  within = omega (arith, At-length buf at (bytes ++ rest) h, length-append bytes rest);
}

pub At-start : (buf : List ℕ) → At buf 0 buf
At-start buf = record { follows = refl; within = omega arith }

pub take-At :
    (buf : List ℕ) (at : ℕ) (bytes rest : List ℕ)
    → At buf at (bytes ++ rest)
    → take buf at (length bytes) ≡ ok (bytes, at + length bytes)
unfolding take
take-At buf at bytes rest h =
    rw (h.follows, take-append bytes rest) ground
      (arith, At-length buf at (bytes ++ rest) h, length-append bytes rest)
