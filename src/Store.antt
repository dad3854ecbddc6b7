-- ===== src/Store.antt =====
-- internal/store: the database as its tables (migrations/001_initial_schema.up.sql), and the failures
-- of a statement.
pub mod Table
pub mod Rows
pub mod Sources
pub mod Outputs
pub mod AlertRules
pub mod Settings
use logtailr.Logline.{Json}
use logtailr.Base.{
  ℕ, String, Bool, true, false, ◌&&◌, Option, none, some, List, if◌then◌else◌, ◌≡◌, refl, arith,
}
use logtailr.Base.Dict.{Dict}
use logtailr.Base.Result.{Result, ok, err, is_err}
use logtailr.Store.Rows.{SourceRow, OutputRow, AlertRuleRow}

-- `violated`: a row breaks a UNIQUE or CHECK constraint; `aborted`: the transaction has failed
-- already; `not_found`: no row has the id or the name; `syntax_error`: the statement is not parsed.
pub data StoreError : Type 0 where
  violated : StoreError
  aborted : StoreError
  not_found : StoreError
  syntax_error : StoreError

-- The tables of a database, each with its rows, and the connection: inside a transaction a statement
-- that fails aborts it, and an aborted transaction refuses every later statement. `next_id` stands
-- for gen_random_uuid, which gives an id that no row has. `settings` maps a key to its JSON value.
pub record Store : Type 0 where
  pub sources : List SourceRow
  pub outputs : List OutputRow
  pub alert_rules : List AlertRuleRow
  pub settings : Dict Json
  pub next_id : ℕ
  pub in_transaction : Bool
  pub has_failed : Bool

abbrev pub Outcome : Type 0 → Type 0
Outcome A = Result StoreError A × Store

-- a statement that fails
unfoldable pub failed : {A : Type 0} → StoreError → Store → Outcome A
failed e st = (err e, record st { has_failed = st.in_transaction })

-- a statement that is sent, unless the transaction is aborted
unfoldable pub sent : {A : Type 0} → Store → Outcome A → Outcome A
sent st o = if st.has_failed then (err aborted, st) else o

-- A statement that names a column in a word that the database may reserve: it is parsed before
-- anything else.
unfoldable pub parsed : {A : Type 0} → Bool → Store → Outcome A → Outcome A
unfolding failed
parsed true st o = failed syntax_error st
parsed false st o = o

sent_by : {A : Type 0} (flag : Bool) (x y : A) → flag ≡ false → (if flag then x else y) ≡ y
sent_by true x y h = ground arith
sent_by false x y h = refl

pub sent_open : {A : Type 0} (st : Store) (o : Outcome A) → st.has_failed ≡ false → sent st o ≡ o
unfolding sent
sent_open st o h = sent_by st.has_failed (err aborted, st) o h

-- the outcome of a write: the rows after it, or a failed constraint
unfoldable pub written : {A B : Type 0} → B → Option (List A) → (List A → Store) → Store → Outcome B
unfolding failed
written b none set st = failed violated st
written b (some rows) set st = (ok b, set rows)

-- the next step of a function, unless this one failed
unfoldable pub and_then :
    {E A B : Type 0} → Result E A × Store → (A → Store → Result E B × Store) → Result E B × Store
and_then (ok a, st) f = f a st
and_then (err e, st) f = (err e, st)

begun : Store → Store
begun st = record st { in_transaction = true; has_failed = false }

ended : Store → Store
ended st = record st { in_transaction = false; has_failed = false }

-- An error rolls back to the tables before. A commit meets no aborted transaction, since the
-- statement that aborted it gave an error.
finished : {E A : Type 0} → Store → Result E A × Store → Result E A × Store
unfolding ended
finished before (ok a, st) = (ok a, ended st)
finished before (err e, st) = (err e, before)

-- WithTx
unfoldable pub with_tx : {E A : Type 0} → (Store → Result E A × Store) → Store → Result E A × Store
unfolding begun finished
with_tx fn st = finished st (fn (begun st))

rolled_back :
    {E A : Type 0} (before : Store) (r : Result E A × Store)
    → is_err r.0 ≡ true
    → (is_err (finished before r).0 ≡ true) × ((finished before r).1 ≡ before)
unfolding finished
rolled_back before (ok a, st) h = ground arith
rolled_back before (err e, st) h = (refl, refl)

-- a transaction whose body always fails leaves the tables as they were
pub with_tx_refused :
    {E A : Type 0} (fn : Store → Result E A × Store) (st : Store)
    → ((st' : Store) → is_err (fn st').0 ≡ true)
    → (is_err (with_tx fn st).0 ≡ true) × ((with_tx fn st).1 ≡ st)
unfolding with_tx
with_tx_refused fn st h = rolled_back st (fn (begun st)) (h (begun st))
