-- ===== src/Drivers/Manager.antt =====
-- `DriverManager` of src/drivers/driver.cpp. A driver is its address.
use pingu_os.Common.{ℕ, ◌+◌, List, [], ◌∷◌, ltb, if◌then◌else◌, set, take}

-- The array of 255 places, and how many are taken.
pub record DriverManager : Type 0 where
  pub m_num_drivers : ℕ
  pub m_drivers : List ℕ

abbrev pub max_drivers : ℕ
max_drivers = 255

unfoldable pub add_driver : DriverManager → ℕ → DriverManager
add_driver m driver =
    if ltb m.m_num_drivers max_drivers
    then record {
      m_num_drivers = m.m_num_drivers + 1;
      m_drivers = set m.m_drivers m.m_num_drivers driver;
    }
    else m

-- The drivers in the order in which they are activated, each by what its `activate` does.
unfoldable pub activate_drivers : {S : Type 0} → (ℕ → S → S) → List ℕ → S → S
activate_drivers activate [] s = s
activate_drivers activate (driver ∷ drivers) s =
    activate_drivers activate drivers (activate driver s)

unfoldable pub activate_all : {S : Type 0} → (ℕ → S → S) → DriverManager → S → S
unfolding activate_drivers
activate_all activate m s = activate_drivers activate (take m.m_num_drivers m.m_drivers) s
