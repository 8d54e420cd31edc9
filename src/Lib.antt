-- ===== src/Lib.antt =====
-- EVMC, the C interface between Ethereum clients (hosts) and virtual machines.
--
-- The parts. A host loads a VM from a dynamic library (lib/loader/loader.c): `evmc_load` makes the
-- name of the create function from the path of the library and looks it up, `evmc_load_and_create`
-- calls it and checks the ABI version of the instance by the helpers of include/evmc/helpers.h, and
-- `evmc_load_and_configure` passes the options of a configuration string to the instance. Clients
-- read the costs and names of the EVM instructions of a revision from the tables of
-- lib/instructions. Messages, results and the host interface of include/evmc/evmc.h are what a host
-- and a VM exchange: the example VM calls the host through the interface, which the mocked host and
-- the example host fill. The C++ header include/evmc/evmc.hpp adds words that are compared and hashed
-- by their bytes and objects that own results and instances; include/evmc/hex.hpp reads and writes hex
-- strings.
--
-- The files.
--   Base                the native numbers, lists, options and Boolean tests
--   CString             the functions of the C library on strings and char arrays
--   Bytes               include/evmc/bytes.hpp: `byte_traits`
--   Evmc                the enumerations of include/evmc/evmc.h, in Messages its structures, and in
--                       Host the host interface
--   ExampleHost         examples/example_host.cpp
--   ExampleVm           examples/example_vm/example_vm.cpp: Memory is the stack and the memory,
--                       Machine the variables of the loop, Execute the cases of the instructions
--                       and the loop, Options the other methods, Programs two programs, which its
--                       child Mocked runs on the mocked host
--   Helpers             include/evmc/helpers.h: Vm is `struct evmc_vm` and its methods, Result the
--                       making and the release of a result, Names the texts of codes and revisions
--   Hex                 include/evmc/hex.hpp, and in Spaces include/evmc/filter_iterator.hpp
--   Loader              lib/loader/loader.c and include/evmc/loader.h
--   Loader/Types        the static variables and the system that the loader calls
--   Loader/Copy         `strcpy_sx`
--   Loader/SymbolName   the part of `evmc_load` that builds `prefixed_name`; Refines describes the
--                       name by lists
--   Loader/Message      `set_error` and `evmc_last_error_msg`
--   Loader/Load         `evmc_load`
--   Loader/Create       `evmc_load_and_create`
--   Loader/Configure    `get_token` and `evmc_load_and_configure`
--   Loader/Instances    the instances made and destroyed, counted along the calls
--   Instructions        lib/instructions/instruction_metrics.c and instruction_names.c, a file for
--                       each table; Lookup reads an entry, Opcodes is `enum evmc_opcode`, the other
--                       files are the theorems
--   MockedHost          include/evmc/mocked_host.hpp: Types is its state, Storage, Accounts and Calls
--                       its methods, Status the status that `set_storage` computes, Storage/Net
--                       sequences of writes to one slot, Steps any sequence of calls, Interface the
--                       functions that a VM reaches it by
--   Owners              the classes `Result` and `VM` of include/evmc/evmc.hpp, as owners
--   PrecompilesVm       examples/example_precompiles_vm/example_precompiles_vm.cpp
--   Words               `address` and `bytes32` of include/evmc/evmc.hpp: loads, comparisons, hashes
--   Tests               runs on concrete inputs
-- A component's theorems stand in its child modules, mostly in the one called Laws.
--
-- The state. A `Loader` holds the two static variables of loader.c, the place of the caller's
-- `error_code`, and the history: the list of the calls of outside code with their answers. A char
-- array is the list of its bytes, and an uninitialised one an argument, so that the theorems hold
-- whatever it contains. A string is the list of its bytes before the null byte. The mocked host is a
-- record with the fields of the class; an address or a bytes32 is the number that its bytes are in
-- big endian order, an unordered map the list of its entries, and `none` the outcome of a failed
-- assertion. The example VM works on a state of the host of any type. Its execution ends with a
-- result, made of the arguments that the code gives to `evmc_make_result`, or it is `faulted` where
-- the code reaches outside an array (the stack, the memory, the code), which C++ leaves undefined.
-- The objects of `Result` and `VM` in scope have a number each.
--
-- Code outside the repository. dlopen, dlsym, dlerror and the create functions are the parameter
-- `Platform` of the loader; the methods of a VM are fields of `Vm`. Each of them may answer by
-- all calls before. malloc and the release functions of others are parameters of Helpers/Result;
-- its heap is the list of the live blocks. `new[]` is a parameter of PrecompilesVm. The memory
-- that a result's output leads to and the effect of its release function are parameters of
-- ExampleVm. The functions of the C library on strings (strlen, strchr, strrchr, strncmp, strcmp,
-- memcpy, vsnprintf on %s and %d) are defined in CString, Loader/Message and ExampleVm/Options by
-- their documentation, and those of the C++ library on ranges (fill_n, copy_n, copy_backward,
-- find) in Bytes; strtol is a parameter.
--
-- Bounds and fuel. The loop over the options has one round for each byte of the options and one
-- more: each round removes a byte at least. The loop that replaces dashes has one round for each
-- byte of the array. The loop of the example VM has a round for each byte of the code and one more,
-- since each round goes forward in the code. The loop over a filtering iterator has a round for each
-- character. The sizes of the arrays are those of the code.
--
-- Not modelled: the Windows branches of loader.c, concurrent use of the static variables, the methods
-- of include/evmc/evmc.hpp that pass their arguments on to the C interface, the output of the
-- example VM, the tooling (its work is I/O and the measuring of time), the bindings and the
-- command line tools.
pub mod Base
pub mod Bytes
pub mod CString
pub mod Evmc
pub mod ExampleHost
pub mod ExampleVm
pub mod Helpers
pub mod Hex
pub mod Instructions
pub mod Loader
pub mod MockedHost
pub mod Owners
pub mod PrecompilesVm
pub mod Tests
pub mod Words
