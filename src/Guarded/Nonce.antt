-- ===== src/Guarded/Nonce.antt =====
-- NonceRegistry of guarded_update.py. A table with a unique `nonce` column is a list of rows;
-- `BEGIN IMMEDIATE … COMMIT` makes each call one step. Timestamps are not modelled, and neither
-- are errors of the database itself.
use grpo_guard.Prelude.{
  Bool, Bool-cases, List, String, [], arith, contains, eq_iff, false, if◌then◌else◌, inl, inr, true,
  ℕ, ◌++◌, ◌==◌, ◌is◌, ◌||◌, ◌∷◌, ◌≡◌, ◌⊎◌,
}
use grpo_guard.Prelude.Result.{Result, err, nonce_reuse_error, ok}

pub record NonceRow : Type 0 where
  pub nonce : String
  pub update_id : String

-- Without a path the registry is a set in memory; with one it is the SQLite table.
pub data NonceRegistry : Type 0 where
  memory : List String → NonceRegistry
  sqlite : List NonceRow → NonceRegistry

unfoldable pub has_row : String → List NonceRow → Bool
has_row n [] = false
has_row n (r ∷ rows) = (n is r.nonce) || has_row n rows

unfoldable pub is_consumed : NonceRegistry → String → Bool
unfolding has_row
is_consumed (memory nonces) n = contains n nonces
is_consumed (sqlite rows) n = has_row n rows

-- INSERT OR IGNORE, with the number of rows that it wrote.
abbrev pub insert_or_ignore : String → String → List NonceRow → ℕ × List NonceRow
insert_or_ignore n update_id rows =
    if has_row n rows
    then (0, rows)
    else (1, rows ++ (record { nonce = n; update_id = update_id }) ∷ [])

-- A call of `consume`, with the registry that it leaves.
unfoldable pub consume : NonceRegistry → String → String → Result (Unit {0}) × NonceRegistry
consume (memory nonces) n update_id =
    if contains n nonces
    then (err nonce_reuse_error, memory nonces)
    else (ok tt, memory (n ∷ nonces))
consume (sqlite rows) n update_id =
    let (written, rows') = insert_or_ignore n update_id rows in
    if written == 0 then (err nonce_reuse_error, sqlite rows') else (ok tt, sqlite rows')

-- _import_lines over the stripped, non-empty lines of a legacy file.
unfoldable pub import_lines : List String → List NonceRow → List NonceRow
import_lines [] rows = rows
import_lines (n ∷ lines) rows = import_lines lines (insert_or_ignore n "" rows).1

has_row-append :
    (n : String) (r : NonceRow) (rows : List NonceRow)
    → has_row n (rows ++ r ∷ []) ≡ (has_row n rows || (n is r.nonce))
unfolding has_row
has_row-append n r [] = ground arith
has_row-append n r (x ∷ rows) = ground (arith, has_row-append n r rows)

-- After a call the registry holds the nonce of the call and those that it held before.
pub consumed-consume :
    (reg : NonceRegistry) (n m update_id : String)
    → is_consumed (consume reg n update_id).1 m ≡ (is_consumed reg m || (m is n))
unfolding is_consumed consume
consumed-consume (memory nonces) n m update_id = elim (Bool-cases (contains n nonces)) [
  | inl old ↦ ground (arith, eq_iff m n)
  | inr new ↦ ground (arith, eq_iff m n)
]
consumed-consume (sqlite rows) n m update_id = elim (Bool-cases (has_row n rows)) [
  | inl old ↦ ground (arith, eq_iff m n)
  | inr new ↦ ground (arith, has_row-append m (record { nonce = n; update_id = update_id }) rows)
]

-- `consume` raises exactly on a nonce that is held, and then changes nothing.
pub consume_once :
    (reg : NonceRegistry) (n update_id : String)
    → ((is_consumed reg n ≡ true) × (consume reg n update_id ≡ (err nonce_reuse_error, reg)))
      ⊎ ((is_consumed reg n ≡ false) × ((consume reg n update_id).0 ≡ ok tt))
unfolding is_consumed consume
consume_once (memory nonces) n update_id = ground arith
consume_once (sqlite rows) n update_id = ground arith
