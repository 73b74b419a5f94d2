-- ===== src/Rc/Counts.antt =====
-- What the resource counts of src/nectar/rc/core.py depend on.
use hive_nectar.Prelude.{ℕ, ◌+◌, ◌*◌, ◌≤◌, ◌≡◌, refl, arith}
use hive_nectar.Rc.{
  get_resource_count, Authority, get_authority_byte_count, account_bytes, account_update_dict,
  account_create_dict, state_bytes_scale,
}

-- A new account takes more state than an update of the same size, for whatever authorities, by at least
-- the 532 units of the account and its three authorities, but counts the same execution time.
account_create_count :
    {Op : Type 0} (get_tx_size : Op → ℕ) (op : Op) (owner active posting : Authority)
    → ((account_update_dict get_tx_size op).state_bytes + 532 * state_bytes_scale
        ≤ (account_create_dict get_tx_size op owner active posting).state_bytes)
      × ((account_create_dict get_tx_size op owner active posting).execution_time
          ≡ (account_update_dict get_tx_size op).execution_time)
unfolding account_update_dict account_create_dict get_resource_count account_bytes
    get_authority_byte_count
account_create_count get_tx_size op owner active posting = (omega arith, refl)
