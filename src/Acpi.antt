-- ===== src/Acpi.antt =====
-- kernel/src/uacpi/mod.rs: the callbacks for the uACPI library. The ones without a body, which answer
-- a constant, are left out.
pub mod Devices
pub mod Memory
use nyaux_kc.Base.{ℕ, Option, none, some, ◌==◌, if◌then◌else◌}

-- `check_ustatus`, with the text for a status, of the library, as a parameter: the error, if any.
pub check_ustatus : {Text : Type 0} → (uacpi_status_to_string : ℕ → Text) → (s : ℕ) → Option Text
check_ustatus uacpi_status_to_string s = if s == 0 then none else some (uacpi_status_to_string s)
