-- ===== src/Rc.antt =====
-- src/nectar/rc/core.py: how much of each resource an operation takes. The cost in credits is then asked
-- of a node. The size of the signed transaction around an operation is a parameter, as are the
-- operations; the sizes and times are those of src/nectar/constants.py.
mod Counts
use hive_nectar.Prelude.{
  ℕ, zero, suc, ◌+◌, ◌*◌, Bool, true, false, Option, none, some, length, if◌then◌else◌, List, ltb,
  bytes_eq,
}
use hive_nectar.Prelude.Bytes.{Text, codes}

abbrev pub state_bytes_scale : ℕ
state_bytes_scale = 10000

abbrev pub state_transaction_byte_size : ℕ
state_transaction_byte_size = 174

abbrev pub state_comment_vote_byte_size : ℕ
state_comment_vote_byte_size = 525

abbrev pub exec_follow_custom_op_scale : ℕ
exec_follow_custom_op_scale = 20

pub record ResourceCount : Type 0 where
  pub history_bytes : ℕ
  pub state_bytes : ℕ
  pub new_accounts : ℕ
  pub execution_time : ℕ
  pub market_bytes : Option ℕ

unfoldable pub get_resource_count : ℕ → ℕ → ℕ → ℕ → ℕ → ResourceCount
get_resource_count tx_size execution_time_count state_bytes_count new_account_op_count
      market_op_count =
    record {
      history_bytes = tx_size;
      state_bytes =
          35 * state_transaction_byte_size
          + state_transaction_byte_size * tx_size
          + state_bytes_count;
      new_accounts = new_account_op_count;
      execution_time = execution_time_count;
      market_bytes = if ltb 0 market_op_count then some tx_size else none;
    }

unfoldable pub comment : ℕ → ℕ → ℕ → ResourceCount
comment tx_size permlink_length parent_permlink_length =
    let state_bytes_count =
      201 * state_bytes_scale
      + state_bytes_scale * permlink_length
      + 2 * state_bytes_scale * parent_permlink_length in
    get_resource_count tx_size 114100 state_bytes_count 0 0

unfoldable pub vote : ℕ → ResourceCount
vote tx_size = get_resource_count tx_size 26500 (47 * state_comment_vote_byte_size) 0 0

unfoldable pub transfer : ℕ → ℕ → ResourceCount
transfer tx_size market_op_count = get_resource_count tx_size 9600 0 0 market_op_count

unfoldable pub custom_json : ℕ → Bool → ResourceCount
custom_json tx_size follow_id =
    get_resource_count tx_size (if follow_id then 11400 * exec_follow_custom_op_scale else 11400) 0
      0 0

unfoldable pub claim_account : ℕ → ResourceCount
claim_account tx_size = get_resource_count tx_size 10000 0 1 0

-- An authority, by its members.
pub record Authority : Type 0 where
  pub account_auths : List Text
  pub key_auths : List Text

unfoldable pub get_authority_byte_count : Authority → ℕ
get_authority_byte_count auth =
    4 * state_bytes_scale
    + 18 * state_bytes_scale * length auth.account_auths
    + 35 * state_bytes_scale * length auth.key_auths

-- The execution time of an account update, 14000, is what both ways to create an account use.
abbrev pub account_update_time : ℕ
account_update_time = 14000

unfoldable pub account_bytes : Authority → Authority → Authority → ℕ
account_bytes owner active posting =
    480 * state_bytes_scale
    + 40 * state_bytes_scale
    + get_authority_byte_count owner
    + get_authority_byte_count active
    + get_authority_byte_count posting

module _ {Op : Type 0} (get_tx_size : Op → ℕ) where
  unfoldable pub comment_dict : Op → Text → Text → ResourceCount
  comment_dict op permlink parent_permlink =
      comment (get_tx_size op) (length permlink) (length parent_permlink)

  unfoldable pub vote_dict : Op → ResourceCount
  vote_dict op = vote (get_tx_size op)

  unfoldable pub transfer_dict : Op → ResourceCount
  transfer_dict op = transfer (get_tx_size op) 1

  unfoldable pub custom_json_dict : Op → Text → ResourceCount
  custom_json_dict op id = custom_json (get_tx_size op) (bytes_eq id (codes "follow"))

  unfoldable pub account_update_dict : Op → ResourceCount
  account_update_dict op = get_resource_count (get_tx_size op) account_update_time 0 0 0

  unfoldable pub account_create_dict : Op → Authority → Authority → Authority → ResourceCount
  account_create_dict op owner active posting =
      get_resource_count (get_tx_size op) account_update_time (account_bytes owner active posting) 0
        0

  unfoldable pub create_claimed_account_dict :
      Op → Authority → Authority → Authority → ResourceCount
  create_claimed_account_dict op owner active posting =
      get_resource_count (get_tx_size op) account_update_time (account_bytes owner active posting) 0
        0
