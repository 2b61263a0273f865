-- ===== src/Loss/Arrays.antt =====
-- numpy and torch on rows: padding, slices that are assigned, views, and masked entries.
use grpo_guard.Prelude.{
  Bool, List, [], drop, false, if◌then◌else◌, is_nil, length, replicate, suc, take, true, zero, ℕ,
  ◌%◌, ◌++◌, ◌-◌, ◌==◌, ◌∷◌,
}
use grpo_guard.Prelude.Result.{Result, err, index_error, ok, runtime_error, value_error}
use Prim.Native.Nat.{max, min}

abbrev pub max_list : List ℕ → ℕ
max_list [] = 0
max_list (n ∷ ns) = max n (max_list ns)

module _ {ℓ} {A : Type ℓ} where
  -- A row of n entries that begins with the given ones.
  abbrev pub pad : A → ℕ → List A → List A
  pad a n xs = xs ++ replicate (n - length xs) a

  abbrev pub drop_last : List A → List A
  drop_last xs = take (length xs - 1) xs

  -- a[:n - 1], where n - 1 may be -1
  abbrev pub upto_pred : ℕ → List A → List A
  upto_pred zero xs = drop_last xs
  upto_pred (suc n) xs = take n xs

  -- row[:k] = xs for a row of m entries a: the lengths agree, or xs has one entry, which is repeated.
  abbrev pub assign : ℕ → A → ℕ → List A → Result (List A)
  assign k a m xs = if length xs == k then ok (pad a m xs) else elim xs [
    | [] ↦ err value_error
    | x ∷ rest ↦ if is_nil rest then ok (pad a m (replicate k x)) else err value_error
  ]

  -- row[:n] = xs
  unfoldable pub assign_prefix : ℕ → A → ℕ → List A → Result (List A)
  assign_prefix n a m xs = assign (min n m) a m xs

  -- row[:n - 1] = xs
  unfoldable pub assign_upto : ℕ → A → ℕ → List A → Result (List A)
  assign_upto n a m xs = assign (length (upto_pred n (replicate m a))) a m xs

  -- xs[0]
  abbrev pub first_of : List A → Result A
  first_of [] = err index_error
  first_of (x ∷ xs) = ok x

  -- xs[0:n], xs[n:2n], …: a loop of `range(0, len(xs), n)`, on fuel.
  abbrev pub chunks_on : ℕ → ℕ → List A → List (List A)
  chunks_on zero n xs = []
  chunks_on (suc fuel) n [] = []
  chunks_on (suc fuel) n (x ∷ xs) = take n (x ∷ xs) ∷ chunks_on fuel n (drop n (x ∷ xs))

  unfoldable pub chunks : ℕ → List A → List (List A)
  chunks n xs = chunks_on (length xs) n xs

  -- .view(-1, n)
  unfoldable pub view_rows : ℕ → List A → Result (List (List A))
  view_rows zero xs = err runtime_error
  view_rows (suc n) xs =
      if length xs % suc n == 0 then ok (chunks (suc n) xs) else err runtime_error

  abbrev pub concat : List (List A) → List A
  concat [] = []
  concat (xs ∷ xss) = xs ++ concat xss

  -- [x for x, m in zip(xs, mask) if m], an array that is indexed by a mask
  abbrev pub gather : List Bool → List A → List A
  gather [] xs = []
  gather (m ∷ ms) [] = []
  gather (true ∷ ms) (x ∷ xs) = x ∷ gather ms xs
  gather (false ∷ ms) (x ∷ xs) = gather ms xs

  -- a[mask] = values on an array of zeros, where there are as many values as places.
  abbrev pub scatter : A → List Bool → List A → List A
  scatter z [] vs = []
  scatter z (true ∷ ms) [] = z ∷ scatter z ms []
  scatter z (true ∷ ms) (v ∷ vs) = v ∷ scatter z ms vs
  scatter z (false ∷ ms) vs = z ∷ scatter z ms vs

abbrev pub count_true : List Bool → ℕ
count_true [] = 0
count_true (true ∷ ms) = suc (count_true ms)
count_true (false ∷ ms) = count_true ms

-- The same with torch's test of the shapes; one value goes to every place.
unfoldable pub index_put {ℓ} : {A : Type ℓ} → A → List Bool → List A → Result (List A)
index_put z mask vs = if length vs == count_true mask then ok (scatter z mask vs) else elim vs [
  | [] ↦ err runtime_error
  | v ∷ rest ↦
      if is_nil rest then ok (scatter z mask (replicate (count_true mask) v)) else err runtime_error
]
