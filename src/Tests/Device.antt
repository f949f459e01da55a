-- ===== src/Tests/Device.antt =====
-- Runs of the device's own operations.
use e2f77dee9c9d8e2bfbcafc.Base.{ℕ, ◌+◌, ◌≤◌, ◌≡◌, ◌≢◌, ◌⊎◌, arith, Option, ok, fault, assertion}
use e2f77dee9c9d8e2bfbcafc.Rf.{RfProtocol, TechMode}
use e2f77dee9c9d8e2bfbcafc.Device.{device_init, find_rf_by_protocol_and_mode}
use e2f77dee9c9d8e2bfbcafc.Device.Ids.{nth_id, nth_id_distinct}
use e2f77dee9c9d8e2bfbcafc.Device.Find.{Found, Fits, find_rf_by_protocol_and_mode_lem}

nth_id_distinct_example :
    (1 ≤ nth_id device_init 250)
    × (nth_id device_init 250 ≤ 254)
    × (nth_id device_init 250 ≢ nth_id device_init (250 + 100))
nth_id_distinct_example = nth_id_distinct device_init 250 100 (omega arith) (omega arith)

find_rf_by_protocol_and_mode_lem_example :
    ((RfProtocol.t3t ≡ RfProtocol.undetermined)
      × (find_rf_by_protocol_and_mode device_init RfProtocol.t3t TechMode.f_passive_listen
          ≡ fault assertion))
    ⊎ ((RfProtocol.t3t ≢ RfProtocol.undetermined)
        × ((o : Option ℕ) × (find_rf_by_protocol_and_mode device_init RfProtocol.t3t
                TechMode.f_passive_listen
              ≡ ok o)
            × Found device_init.rf (Fits RfProtocol.t3t TechMode.f_passive_listen) o))
find_rf_by_protocol_and_mode_lem_example =
    find_rf_by_protocol_and_mode_lem device_init RfProtocol.t3t TechMode.f_passive_listen
