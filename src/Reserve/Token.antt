-- ===== src/Reserve/Token.antt =====
-- `TokenInfo` (state/token_info.rs): where the price of a token comes from and how old it may be. The
-- checks against the accounts of an instruction take the keys of these accounts; the padding is left
-- out.
use kamino_lending.Base.{
  Bool, LendingError, List, Option, Result, equal, false, guard, if◌then◌else◌, ltb, none, not,
  replicate, some, true, u16_max, ℕ, ◌&&◌, ◌==◌, ◌>>◌, ◌||◌,
}
use kamino_lending.Reserve.Liquidity.{Pubkey}

-- utils/consts.rs, the bytes of the key read as a number.
abbrev pub null_pubkey : Pubkey
null_pubkey = 5318091278850239503130392034594550738255658178703900428371527309990974980096

pub record PriceHeuristic : Type 0 where
  pub lower : ℕ
  pub upper : ℕ
  pub exp : ℕ

pub record ScopeConfiguration : Type 0 where
  pub price_feed : Pubkey
  pub price_chain : List ℕ
  pub twap_chain : List ℕ

pub record SwitchboardConfiguration : Type 0 where
  pub price_aggregator : Pubkey
  pub twap_aggregator : Pubkey

pub record PythConfiguration : Type 0 where
  pub price : Pubkey

pub record TokenInfo : Type 0 where
  pub name : List ℕ
  pub heuristic : PriceHeuristic
  pub max_twap_divergence_bps : ℕ
  pub max_age_price_seconds : ℕ
  pub max_age_twap_seconds : ℕ
  pub scope_configuration : ScopeConfiguration
  pub switchboard_configuration : SwitchboardConfiguration
  pub pyth_configuration : PythConfiguration
  pub block_price_usage : ℕ

abbrev is_key_set : Pubkey → Bool
is_key_set key = not (key == 0) && not (key == null_pubkey)

abbrev is_chain_set : List ℕ → Bool
is_chain_set chain = not (equal chain (replicate 4 u16_max)) && not (equal chain (replicate 4 0))

-- `ScopeConfiguration::is_enabled`, `is_valid` and `has_twap`
unfoldable pub is_scope_enabled : ScopeConfiguration → Bool
is_scope_enabled s = is_key_set s.price_feed

unfoldable pub is_scope_valid : ScopeConfiguration → Bool
unfolding is_scope_enabled
is_scope_valid s = not (is_scope_enabled s) || is_chain_set s.price_chain

unfoldable pub has_scope_twap : ScopeConfiguration → Bool
has_scope_twap s = is_chain_set s.twap_chain

-- `SwitchboardConfiguration::is_enabled` and `has_twap`
unfoldable pub is_switchboard_enabled : SwitchboardConfiguration → Bool
is_switchboard_enabled s = is_key_set s.price_aggregator

unfoldable pub has_switchboard_twap : SwitchboardConfiguration → Bool
has_switchboard_twap s = is_key_set s.twap_aggregator

-- `PythConfiguration::is_enabled`
unfoldable pub is_pyth_enabled : PythConfiguration → Bool
is_pyth_enabled p = is_key_set p.price

-- `TokenInfo::is_valid`
unfoldable pub is_token_info_valid : TokenInfo → Bool
unfolding is_scope_valid is_scope_enabled is_switchboard_enabled is_pyth_enabled
is_token_info_valid t =
    is_scope_valid t.scope_configuration
    && (is_scope_enabled t.scope_configuration
        || is_switchboard_enabled t.switchboard_configuration
        || is_pyth_enabled t.pyth_configuration)

unfoldable pub is_twap_enabled : TokenInfo → Bool
is_twap_enabled t = ltb 0 t.max_twap_divergence_bps

unfoldable pub is_twap_config_valid : TokenInfo → Bool
unfolding is_twap_enabled is_scope_enabled has_scope_twap is_switchboard_enabled
    has_switchboard_twap
is_twap_config_valid t =
    if not (is_twap_enabled t)
    then true
    else (if t.max_age_twap_seconds == 0
        then false
        else (if is_scope_enabled t.scope_configuration
              && not (has_scope_twap t.scope_configuration)
            then false
            else (if is_switchboard_enabled t.switchboard_configuration
                  && not (has_switchboard_twap t.switchboard_configuration)
                then false
                else true)))

-- `matches!(account, Some(a) if *a.key == key)`
abbrev is_account : Option Pubkey → Pubkey → Bool
is_account none key = false
is_account (some a) key = a == key

abbrev is_none : Option Pubkey → Bool
is_none none = true
is_none (some a) = false

unfoldable pub check_pyth_acc_matches : TokenInfo → Option Pubkey → Bool
unfolding is_pyth_enabled
check_pyth_acc_matches t pyth_info =
    if is_pyth_enabled t.pyth_configuration
    then is_account pyth_info t.pyth_configuration.price
    else is_none pyth_info

unfoldable pub check_switchboard_acc_matches : TokenInfo → Option Pubkey → Option Pubkey → Bool
unfolding is_switchboard_enabled is_twap_enabled
check_switchboard_acc_matches t price_info twap_info =
    if is_switchboard_enabled t.switchboard_configuration
    then is_account price_info t.switchboard_configuration.price_aggregator
      && (not (is_twap_enabled t)
          || is_account twap_info t.switchboard_configuration.twap_aggregator)
    else is_none price_info && is_none twap_info

unfoldable pub check_scope_acc_matches : TokenInfo → Option Pubkey → Bool
unfolding is_scope_enabled
check_scope_acc_matches t scope_info =
    if is_scope_enabled t.scope_configuration
    then is_account scope_info t.scope_configuration.price_feed
    else is_none scope_info

unfoldable pub validate_token_info_config :
    TokenInfo → Option Pubkey → Option Pubkey → Option Pubkey → Option Pubkey → Result (Unit {0})
unfolding is_token_info_valid is_twap_config_valid check_pyth_acc_matches
    check_switchboard_acc_matches check_scope_acc_matches
validate_token_info_config t pyth_info switchboard_price_info switchboard_twap_info scope_info = do
  guard (is_token_info_valid t) LendingError.invalid_oracle_config
  guard (is_twap_config_valid t) LendingError.invalid_twap_config
  guard (check_pyth_acc_matches t pyth_info) LendingError.invalid_pyth_price_account
  guard (check_switchboard_acc_matches t switchboard_price_info switchboard_twap_info)
      LendingError.invalid_switchboard_account
  guard (check_scope_acc_matches t scope_info) LendingError.invalid_scope_price_account
