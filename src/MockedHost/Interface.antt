-- ===== src/MockedHost/Interface.antt =====
-- The functions of `evmc::internal` of include/evmc/evmc.hpp, and `Host::get_interface`, for a context
-- that is a `MockedHost`.
use evmc.Evmc.Host.{HostInterface}
use evmc.MockedHost.Types.{MockedHost}
use evmc.MockedHost.Storage.{
  get_storage, set_storage, access_storage, get_transient_storage, set_transient_storage,
}
use evmc.MockedHost.Accounts.{
  account_exists, get_balance, get_code_size, get_code_hash, copy_code, selfdestruct,
  access_account,
}
use evmc.MockedHost.Calls.{call, get_tx_context, get_block_hash, emit_log}

-- `Result::release_raw` on the result that `call` gives keeps every field of it.
abbrev pub interface : HostInterface MockedHost
interface = record {
  account_exists = λ addr h. account_exists addr h;
  get_storage = λ addr key h. get_storage addr key h;
  set_storage = λ addr key value h. set_storage addr key value h;
  get_balance = λ addr h. get_balance addr h;
  get_code_size = λ addr h. get_code_size addr h;
  get_code_hash = λ addr h. get_code_hash addr h;
  copy_code = λ addr offset buffer size h. copy_code addr offset buffer size h;
  selfdestruct = λ addr beneficiary h. selfdestruct addr beneficiary h;
  call = λ msg input h. call msg input h;
  get_tx_context = λ h. (get_tx_context h, h);
  get_block_hash = λ number h. get_block_hash number h;
  emit_log = λ addr bytes topics h. emit_log addr bytes topics h;
  access_account = λ addr h. access_account addr h;
  access_storage = λ addr key h. access_storage addr key h;
  get_transient_storage = λ addr key h. get_transient_storage addr key h;
  set_transient_storage = λ addr key value h. set_transient_storage addr key value h;
}
