-- ===== src/Programs/Unit.antt =====
-- The unit file that `WriteSystemdUnit` of src/install/workspace_config.cpp writes. What the file system
-- and `systemctl` do with it is not modelled; the store root is the one that `ResolveStoreRoot` finds.
use poorguy_mem.Common.{ℕ, Bool, List, [], ◌∷◌, ◌++◌, Text, text, if◌then◌else◌, is_empty}
use poorguy_mem.Engine.Keys.{decimal}

-- `InstallOptions`; the number of cores is not negative.
pub record InstallOptions : Type 0 where
  pub pgmemd_bin : Text
  pub pgmemd_extra_args : Text
  pub store_root : Text
  pub core_number : ℕ
  pub manage_systemd : Bool

-- The arguments behind the program in `ExecStart`, without the extra ones.
unfoldable pub exec_arguments : Text → InstallOptions → List Text
exec_arguments store_root options =
    text "--host"
    ∷ text "0.0.0.0"
    ∷ text "--port"
    ∷ text "8765"
    ∷ text "--store-backend"
    ∷ text "eloqstore"
    ∷ text "--core-number"
    ∷ decimal options.core_number
    ∷ text "--mem-budget-mb"
    ∷ text "512"
    ∷ text "--disk-budget-gb"
    ∷ text "20"
    ∷ text "--gc-high-watermark"
    ∷ text "0.9"
    ∷ text "--gc-low-watermark"
    ∷ text "0.75"
    ∷ text "--gc-batch-size"
    ∷ text "256"
    ∷ text "--max-record-bytes"
    ∷ text "131072"
    ∷ text "--enable-tombstone-gc"
    ∷ text "true"
    ∷ text "--store-root"
    ∷ store_root
    ∷ []

unfoldable pub spaced : List Text → Text
spaced [] = []
spaced (word ∷ words) = text " " ++ (word ++ spaced words)

-- The text of the unit file.
unfoldable pub unit_file : Text → InstallOptions → Text
unit_file store_root options =
    text
      "[Unit]\nDescription=Poorguy Memory Daemon\nAfter=network.target\n\n[Service]\nType=simple\n"
    ++ (text "ExecStart="
        ++ (options.pgmemd_bin
            ++ (spaced (exec_arguments store_root options)
                ++ ((if is_empty options.pgmemd_extra_args
                      then []
                      else text " " ++ options.pgmemd_extra_args)
                    ++ text
                        "\nRestart=on-failure\nRestartSec=2\n\n[Install]\nWantedBy=default.target\n"))))
