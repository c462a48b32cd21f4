-- ===== src/App/Equalize.antt =====
-- `App::handle(e2sm::kpm::KpmIndication *)` of src/nexran.cc: throttling and the equalisation of
-- shares. The handler runs under `App::mutex`, so it is one step.
pub mod Float
pub mod Collect
pub mod Factors
pub mod Handle
pub mod Pointwise
pub mod Bounds
pub mod Shares
pub mod Effects
