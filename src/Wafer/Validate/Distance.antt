-- ===== src/Wafer/Validate/Distance.antt =====
-- editDistance of internal/wafer/validate.go: two rows of the table, on the code points of the
-- texts. `cur` is written from left to right while `prev` is read.
pub mod Scripts
use servitor.Prelude.{
  ℕ, zero, suc, ◌+◌, ◌≤◌, String, List, [], ◌∷◌, ◌++◌, ◌≡◌, refl, ◌∙◌, ap, sym, arith, ◌==◌, ltb,
  if◌then◌else◌, codes, length, append_assoc, append-nil,
}

-- `min` of two and of three.
abbrev pub least : ℕ → ℕ → ℕ
least m v = if ltb v m then v else m

abbrev pub least3 : ℕ → ℕ → ℕ → ℕ
least3 a b c = least (least a b) c

abbrev pub cost : ℕ → ℕ → ℕ
cost x y = if x == y then 0 else 1

-- cur[j] and what follows: `left` is cur[j-1], `diagonal` prev[j-1], and the lists are prev[j:] and
-- db[j-1:].
pub cells : ℕ → ℕ → ℕ → List ℕ → List ℕ → List ℕ
cells x left diagonal (above ∷ prev) (y ∷ db) =
    let cell = least3 (suc above) (suc left) (diagonal + cost x y) in
    cell ∷ cells x cell above prev db
cells x left diagonal _ _ = []

-- The row of `i`, from the one before it.
pub next_row : ℕ → ℕ → List ℕ → List ℕ → List ℕ
unfolding cells
next_row i x (diagonal ∷ prev) db = i ∷ cells x i diagonal prev db
next_row i x [] db = i ∷ []

pub rows : ℕ → List ℕ → List ℕ → List ℕ → List ℕ
unfolding next_row
rows i [] db prev = prev
rows i (x ∷ da) db prev = rows (suc i) da db (next_row i x prev db)

-- prev[j] = j
pub first_row : ℕ → List ℕ → List ℕ
first_row j [] = j ∷ []
first_row j (y ∷ db) = j ∷ first_row (suc j) db

-- prev[len(db)]
abbrev pub last : ℕ → List ℕ → ℕ
last d [] = d
last d (x ∷ xs) = last x xs

unfoldable pub edit_distance : String → String → ℕ
unfolding rows first_row
edit_distance a b = last 0 (rows 1 (codes a) (codes b) (first_row 0 (codes b)))

-- The recursion that the table stands for, on the prefixes of the texts, read backwards.
unfoldable pub distance : List ℕ → List ℕ → ℕ
distance [] ys = length ys
distance (x ∷ xs) [] = suc (length xs)
distance (x ∷ xs) (y ∷ ys) =
    least3 (suc (distance xs (y ∷ ys))) (suc (distance (x ∷ xs) ys)) (distance xs ys + cost x y)

-- `xs` read backwards, in front of `acc`.
abbrev pub backwards : List ℕ → List ℕ → List ℕ
backwards [] acc = acc
backwards (x ∷ xs) acc = backwards xs (x ∷ acc)

-- The cells right of the one of `rb`.
abbrev expected : List ℕ → List ℕ → List ℕ → List ℕ
expected ra rb [] = []
expected ra rb (y ∷ db) = distance ra (y ∷ rb) ∷ expected ra (y ∷ rb) db

cells-expected :
    (x : ℕ) (ra rb db : List ℕ)
    → cells x (distance (x ∷ ra) rb) (distance ra rb) (expected ra rb db) db
      ≡ expected (x ∷ ra) rb db
unfolding cells distance
cells-expected x ra rb [] = refl
cells-expected x ra rb (y ∷ db) =
    ap (λ rest. distance (x ∷ ra) (y ∷ rb) ∷ rest) (cells-expected x ra (y ∷ rb) db)

distance-nil : (xs : List ℕ) → distance xs [] ≡ length xs
unfolding distance
distance-nil [] = refl
distance-nil (x ∷ xs) = refl

row_of : List ℕ → List ℕ → List ℕ
row_of ra db = distance ra [] ∷ expected ra [] db

first_row-expected : (rb db : List ℕ) → first_row (length rb) db ≡ length rb ∷ expected [] rb db
unfolding first_row distance
first_row-expected rb [] = refl
first_row-expected rb (y ∷ db) = ap (λ rest. length rb ∷ rest) (first_row-expected (y ∷ rb) db)

next_row-row_of :
    (x : ℕ) (ra db : List ℕ) → next_row (suc (length ra)) x (row_of ra db) db ≡ row_of (x ∷ ra) db
unfolding next_row row_of distance
next_row-row_of x ra db = ap (λ rest. suc (length ra) ∷ rest) (cells-expected x ra [] db)

rows-row_of :
    (da ra db : List ℕ) → rows (suc (length ra)) da db (row_of ra db) ≡ row_of (backwards da ra) db
unfolding rows
rows-row_of [] ra db = refl
rows-row_of (x ∷ da) ra db =
    ap (λ row. rows (suc (suc (length ra))) da db row) (next_row-row_of x ra db)
    ∙ rows-row_of da (x ∷ ra) db

last-expected :
    (ra rb db : List ℕ) → last (distance ra rb) (expected ra rb db) ≡ distance ra (backwards db rb)
last-expected ra rb [] = refl
last-expected ra rb (y ∷ db) = last-expected ra (y ∷ rb) db

-- The two rows compute the recursion.
pub edit_distance-distance :
    (a b : String) → edit_distance a b ≡ distance (backwards (codes a) []) (backwards (codes b) [])
unfolding edit_distance row_of distance
edit_distance-distance a b =
    ap (λ row. last 0 (rows 1 (codes a) (codes b) row)) (first_row-expected [] (codes b))
    ∙ ap (λ row. last 0 row) (rows-row_of (codes a) [] (codes b))
    ∙ last-expected (backwards (codes a) []) [] (codes b)
