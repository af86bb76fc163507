-- ===== src/Operations/Accounts.antt =====
-- The accounts that an operation reaches through loaders (utils/account_loader_trait.rs), and the
-- clock. The reserves of an instruction are a function of their keys, so that two loaders of one
-- account see one reserve; an iterator of loaders is the list of their keys.
use kamino_lending.Base.{
  LendingError, List, Result, [], err, false, get_elem?, if◌then◌else◌, ok, panic, true, unwrap, ℕ,
  ◌+◌, ◌-◌, ◌==◌, ◌>>=◌, ◌^◌, ◌∷◌,
}
use kamino_lending.Base.Int.{negsuc, pos, ℤ}
use kamino_lending.Reserve.{Pubkey, Reserve}
use kamino_lending.Obligation.{ObligationCollateral, is_collateral_active}

abbrev pub Accounts : Type 0
Accounts = Pubkey → Reserve

abbrev pub put : Accounts → Pubkey → Reserve → Accounts
put accounts key r = λ k. if k == key then r else accounts k

-- `loader.get_mut()` while the reserve of another key is held: an account cannot be borrowed twice.
-- An error of the framework, which is no `LendingError`, aborts the instruction as a panic does.
abbrev pub get_mut : Accounts → Pubkey → Pubkey → Result Reserve
get_mut accounts held key = if key == held then panic else ok (accounts key)

-- `require_keys_eq!` without a code of the program.
abbrev pub require_keys_eq : Pubkey → Pubkey → Result (Unit {0})
require_keys_eq a b = if a == b then ok tt else panic

-- The clock of the runtime; the time is an i64.
pub record Clock : Type 0 where
  pub slot : ℕ
  pub unix_timestamp : ℤ

-- `u64::try_from(clock.unix_timestamp).unwrap()`
abbrev pub timestamp_of : ℤ → Result ℕ
timestamp_of (pos n) = ok n
timestamp_of (negsuc n) = panic

-- `t as u64`
abbrev pub wrapped_timestamp : ℤ → ℕ
wrapped_timestamp (pos n) = n
wrapped_timestamp (negsuc n) = 2 ^ 64 - (n + 1)

-- An element of an array; an index out of bounds panics.
abbrev pub at {ℓ} : {A : Type ℓ} → List A → ℕ → Result A
at xs i = unwrap (get_elem? xs i)

-- `iter.next().ok_or(..)` on an iterator of loaders.
abbrev pub next_key : List Pubkey → Result (Pubkey × List Pubkey)
next_key [] = err LendingError.invalid_account_input
next_key (key ∷ keys) = ok (key, keys)

-- `zip_exact` (utils/validation.rs) ends with an error if a key is left over.
abbrev pub none_left : List Pubkey → Result (Unit {0})
none_left [] = ok tt
none_left (key ∷ keys) = err LendingError.invalid_account_input

-- What a loop over the active deposits does to one of them and to the accounts.
abbrev pub DepositStep : Type 0
DepositStep = ObligationCollateral → Pubkey → Accounts → Result (ObligationCollateral × Accounts)

-- A loop over the active deposits, each with the next key: the deposits, the keys that are left and
-- the accounts.
unfoldable pub for_active_deposits :
    DepositStep
    → List ObligationCollateral
    → List Pubkey
    → Accounts
    → Result (List ObligationCollateral × List Pubkey × Accounts)
for_active_deposits step [] keys accounts = ok ([], keys, accounts)
for_active_deposits step (t ∷ ts) keys accounts = elim (is_collateral_active t) [
  | false ↦ for_active_deposits step ts keys accounts >>= λ rest. ok (t ∷ rest.0, rest.1, rest.2)
  | true ↦ next_key keys >>= λ taken. step t taken.0 accounts >>= λ stepped.
      for_active_deposits step ts taken.1 stepped.1 >>= λ rest.
      ok (stepped.0 ∷ rest.0, rest.1, rest.2)
]
