-- ===== src/Instructions/Tables.antt =====
-- `evmc_get_instruction_metrics_table` and `evmc_get_instruction_names_table`: the table of a
-- revision, or `none` for the null pointer, and the entry of an opcode in it.
use Prim.Native.String.{String}
use evmc.Base.{List, Option, none, some}
use evmc.Evmc.{Revision}
use evmc.Instructions.Types.{InstructionMetrics}
use evmc.Instructions.Metrics.{
  frontier_metrics, homestead_metrics, tangerine_whistle_metrics, byzantium_metrics,
  constantinople_metrics, istanbul_metrics, berlin_metrics, london_metrics, shanghai_metrics,
  cancun_metrics, prague_metrics, osaka_metrics,
}
use evmc.Instructions.Names.{
  frontier_names, homestead_names, byzantium_names, constantinople_names, istanbul_names,
  london_names, paris_names, shanghai_names, cancun_names, prague_names, osaka_names,
}

unfoldable pub evmc_get_instruction_metrics_table : Revision → Option (List InstructionMetrics)
unfolding frontier_metrics homestead_metrics tangerine_whistle_metrics byzantium_metrics
    constantinople_metrics istanbul_metrics berlin_metrics london_metrics shanghai_metrics
    cancun_metrics prague_metrics osaka_metrics
evmc_get_instruction_metrics_table Revision.experimental = some osaka_metrics
evmc_get_instruction_metrics_table Revision.osaka = some osaka_metrics
evmc_get_instruction_metrics_table Revision.prague = some prague_metrics
evmc_get_instruction_metrics_table Revision.cancun = some cancun_metrics
evmc_get_instruction_metrics_table Revision.shanghai = some shanghai_metrics
evmc_get_instruction_metrics_table Revision.paris = some london_metrics
evmc_get_instruction_metrics_table Revision.london = some london_metrics
evmc_get_instruction_metrics_table Revision.berlin = some berlin_metrics
evmc_get_instruction_metrics_table Revision.istanbul = some istanbul_metrics
evmc_get_instruction_metrics_table Revision.petersburg = some constantinople_metrics
evmc_get_instruction_metrics_table Revision.constantinople = some constantinople_metrics
evmc_get_instruction_metrics_table Revision.byzantium = some byzantium_metrics
evmc_get_instruction_metrics_table Revision.spurious_dragon = some tangerine_whistle_metrics
evmc_get_instruction_metrics_table Revision.tangerine_whistle = some tangerine_whistle_metrics
evmc_get_instruction_metrics_table Revision.homestead = some homestead_metrics
evmc_get_instruction_metrics_table Revision.frontier = some frontier_metrics
evmc_get_instruction_metrics_table (Revision.other n) = none

unfoldable pub evmc_get_instruction_names_table : Revision → Option (List (Option String))
unfolding frontier_names homestead_names byzantium_names constantinople_names istanbul_names
    london_names paris_names shanghai_names cancun_names prague_names osaka_names
evmc_get_instruction_names_table Revision.experimental = some osaka_names
evmc_get_instruction_names_table Revision.osaka = some osaka_names
evmc_get_instruction_names_table Revision.prague = some prague_names
evmc_get_instruction_names_table Revision.cancun = some cancun_names
evmc_get_instruction_names_table Revision.shanghai = some shanghai_names
evmc_get_instruction_names_table Revision.paris = some paris_names
evmc_get_instruction_names_table Revision.london = some london_names
evmc_get_instruction_names_table Revision.berlin = some istanbul_names
evmc_get_instruction_names_table Revision.istanbul = some istanbul_names
evmc_get_instruction_names_table Revision.petersburg = some constantinople_names
evmc_get_instruction_names_table Revision.constantinople = some constantinople_names
evmc_get_instruction_names_table Revision.byzantium = some byzantium_names
evmc_get_instruction_names_table Revision.spurious_dragon = some homestead_names
evmc_get_instruction_names_table Revision.tangerine_whistle = some homestead_names
evmc_get_instruction_names_table Revision.homestead = some homestead_names
evmc_get_instruction_names_table Revision.frontier = some frontier_names
evmc_get_instruction_names_table (Revision.other n) = none
