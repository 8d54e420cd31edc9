-- ===== src/ExampleVm.antt =====
-- examples/example_vm/example_vm.cpp: the example VM
pub mod Memory
pub mod Machine
pub mod Execute
pub mod Options
pub mod Programs
