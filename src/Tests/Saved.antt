-- ===== src/Tests/Saved.antt =====
-- The PMP functions on a sample hart.
use cyptos.Prelude.{◌≡◌, arith}
use cyptos.Pmp.{load_task_config}
use cyptos.Pmp.Load.{load_task_config-IsInstalled, region_at}
use cyptos.Pmp.Region.{new}
use cyptos.Pmp.Access.{store, user_permits}
use cyptos.Pmp.Restore.{user_permits-save_current_config}
use cyptos.Pmp.Save.{save_current_config, save_current_config-IsInstalled}
use cyptos.Tests.Board.{board}
use cyptos.Tests.Table.{sample_regions, sample-IsTaskConfig, code-IsNapot, reset_regs, reset-IsOpen}

save_current_config-IsInstalled_example :
    region_at (save_current_config (load_task_config board sample_regions reset_regs)) 4
    ≡ new 0x8000_27fc 8 29
save_current_config-IsInstalled_example =
    save_current_config-IsInstalled sample_regions reset_regs
      (load_task_config board sample_regions reset_regs) 4
      (load_task_config-IsInstalled board reset_regs reset-IsOpen sample_regions
        sample-IsTaskConfig)
      (omega arith) (omega arith)
      (record { small = omega arith; legal = λ e. absurd (omega arith); shape = code-IsNapot })

user_permits-save_current_config_example :
    user_permits
      (load_task_config board
        (save_current_config (load_task_config board sample_regions reset_regs))
        reset_regs)
      store
      0x8020_1000
    ≡ user_permits (load_task_config board sample_regions reset_regs) store 0x8020_1000
user_permits-save_current_config_example =
    user_permits-save_current_config board sample_regions reset_regs
      (load_task_config board sample_regions reset_regs) reset_regs store 0x8020_1000
      sample-IsTaskConfig
      (load_task_config-IsInstalled board reset_regs reset-IsOpen sample_regions
        sample-IsTaskConfig)
      reset-IsOpen (omega arith)
