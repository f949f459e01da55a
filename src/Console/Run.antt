-- ===== src/Console/Run.antt =====
-- The four entry points of src/cmdline.c, which the host calls with a line of the console.
use e2f77dee9c9d8e2bfbcafc.Base.{Result}
use e2f77dee9c9d8e2bfbcafc.System.{System}
use e2f77dee9c9d8e2bfbcafc.Console.{Args}
use e2f77dee9c9d8e2bfbcafc.Console.Commands.{Done, Memory}
use e2f77dee9c9d8e2bfbcafc.Console.Links.{cmd_snep, cmd_llcp}
use e2f77dee9c9d8e2bfbcafc.Console.Notify.{cmd_nci}
use e2f77dee9c9d8e2bfbcafc.Console.Tags.{cmd_tag}

pub data Command : Type 0 where
  snep nci llcp tag : Command

unfoldable pub run_command : Command → Args → System → Memory → Result Done
unfolding cmd_snep cmd_nci cmd_llcp cmd_tag
run_command snep args sys memory = cmd_snep args sys memory
run_command nci args sys memory = cmd_nci args sys memory
run_command llcp args sys memory = cmd_llcp args sys memory
run_command tag args sys memory = cmd_tag args sys memory
