-- ===== src/Ledger/Pages.antt =====
-- src/backend/ledger.go: reading the chain page by page, from its head or after an entry.
pub mod Tail
use syrinx.Common.{
  ℕ, zero, suc, ◌-◌, String, Bool, true, false, not, ◌&&◌, ◌==◌, if◌then◌else◌, Option, none, some,
  List, [], ◌∷◌, ◌++◌, find, select, nat_eq, Result, ok, err, refused, refuse_if, or_fail, ◌>>=◌,
  ◌>>◌, is_empty, read_decimal,
}
use syrinx.Identity.{parse_identity_id}
use syrinx.Store.{LedgerEntry, Db}

abbrev pub ledger_page_size : ℕ
ledger_page_size = 100

-- GetLedgerEntry
unfoldable pub get_ledger_entry : Db → ℕ → Option LedgerEntry
get_ledger_entry db id = find (λ e. nat_eq e.id id) db.ledger_entries

-- GetLedgerHead: the entry whose prev_id is NULL
unfoldable pub get_ledger_head : Db → Option LedgerEntry
get_ledger_head db = find (λ e. nat_eq e.prev_id 0) db.ledger_entries

-- The rows whose prev_id is `id`; a NULL equals nothing.
unfoldable pub followers : List LedgerEntry → ℕ → List LedgerEntry
followers entries id = select (λ n. nat_eq n.prev_id id && not (nat_eq n.prev_id 0)) entries

followers_all : List LedgerEntry → List LedgerEntry → List LedgerEntry
unfolding followers
followers_all entries [] = []
followers_all entries (c ∷ cs) = followers entries c.id ++ followers_all entries cs

-- The recursive query, level by level: a row joins the rows that follow it while its depth allows.
unfoldable pub levels : List LedgerEntry → ℕ → List LedgerEntry → List LedgerEntry
unfolding followers_all
levels entries zero level = level
levels entries (suc depth) level = level ++ levels entries depth (followers_all entries level)

-- GetLedgerTail. The first level is there whatever the limit.
unfoldable pub get_ledger_tail : Db → ℕ → ℕ → List LedgerEntry
unfolding levels followers
get_ledger_tail db after_id limit =
    levels db.ledger_entries (limit - 1) (followers db.ledger_entries after_id)

is_member : String → Option (String × String) → Bool
is_member server_id none = false
is_member server_id (some (user_id, home)) = home == server_id

-- ledgerReader
unfoldable pub ledger_reader : String → String → Result (Unit {0})
unfolding is_member
ledger_reader server_id user_id =
    refuse_if (not (is_member server_id (parse_identity_id user_id)))
      (refused 401 "Authentication required")

-- pb.LedgerPage
pub record Page : Type 0 where
  pub head : Option LedgerEntry
  pub tail : List LedgerEntry

first_page : Db → Option LedgerEntry → Page
first_page db none = record { head = none; tail = [] }
first_page db (some head) = record {
  head = some head;
  tail = get_ledger_tail db head.id ledger_page_size;
}

-- GetLedger; `after` is "" without the query's parameter.
unfoldable pub get_ledger : Db → String → String → String → Result Page
unfolding first_page
get_ledger db server_id user_id after =
    ledger_reader server_id user_id
    >> (if is_empty after
        then ok (first_page db (get_ledger_head db))
        else (or_fail (read_decimal 0x10000000000000000 after)
              (refused 400 "after must be an entry ID")
            >>= λ id. or_fail (get_ledger_entry db id) (refused 404 "Entry not found") >>= λ e.
                ok (record { head = none; tail = get_ledger_tail db id ledger_page_size })))
