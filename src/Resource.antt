-- ===== src/Resource.antt =====
-- The northbound resources: include/nexran.h, src/ue.cc, src/slice.cc, src/nodeb.cc and
-- src/policy.cc, over the JSON library as a parameter.
pub mod Json
pub mod Error
pub mod Writer
pub mod Schema
pub mod Validate
pub mod Pointer
pub mod Policy
pub mod Ue
pub mod Slice
pub mod NodeB
