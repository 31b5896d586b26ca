-- ===== src/Programs.antt =====
-- The programs of moduleAppTest and moduleUbuntuTest/moduleApp, as clients of the drivers: what
-- they print and how long they sleep is left out.
pub mod HelloTest
pub mod ParamTest
pub mod InvokeLeds
pub mod MyInvokeLeds
pub mod ModuleApp
