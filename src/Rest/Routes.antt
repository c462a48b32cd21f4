-- ===== src/Rest/Routes.antt =====
-- The table of routes, `RestServer::setupRoutes` of src/restserver.cc.
use nexran.Base.{String, List, [], ◌∷◌}

pub data Verb : Type 0 where
  get post put delete : Verb

-- The handlers, in the order of their routes.
pub data Endpoint : Type 0 where
  get_version : Endpoint
  get_nodeb get_nodebs post_nodeb put_nodeb delete_nodeb : Endpoint
  post_nodeb_slice_binding delete_nodeb_slice_binding : Endpoint
  get_slice get_slices post_slice put_slice delete_slice : Endpoint
  post_slice_ue_binding delete_slice_ue_binding : Endpoint
  get_ue get_ues post_ue put_ue delete_ue : Endpoint

-- A part of a path is a word or a parameter.
pub data Segment : Type 0 where
  word : String → Segment
  parameter : String → Segment

pub record Route : Type 0 where
  pub verb : Verb
  pub path : List Segment
  pub endpoint : Endpoint

abbrev at : Verb → List Segment → Endpoint → Route
at verb path endpoint = record { verb = verb; path = word "v1" ∷ path; endpoint = endpoint }

unfoldable pub routes : List Route
routes =
    at get (word "version" ∷ []) get_version
    ∷ at get (word "nodebs" ∷ parameter "name" ∷ []) get_nodeb
    ∷ at get (word "nodebs" ∷ []) get_nodebs
    ∷ at post (word "nodebs" ∷ []) post_nodeb
    ∷ at put (word "nodebs" ∷ parameter "name" ∷ []) put_nodeb
    ∷ at delete (word "nodebs" ∷ parameter "name" ∷ []) delete_nodeb
    ∷ at post (word "nodebs" ∷ parameter "nodeb_name" ∷ word "slices" ∷ parameter "slice_name" ∷ [])
        post_nodeb_slice_binding
    ∷ at delete
        (word "nodebs" ∷ parameter "nodeb_name" ∷ word "slices" ∷ parameter "slice_name" ∷ [])
        delete_nodeb_slice_binding
    ∷ at get (word "slices" ∷ parameter "name" ∷ []) get_slice
    ∷ at get (word "slices" ∷ []) get_slices
    ∷ at post (word "slices" ∷ []) post_slice
    ∷ at put (word "slices" ∷ parameter "name" ∷ []) put_slice
    ∷ at delete (word "slices" ∷ parameter "name" ∷ []) delete_slice
    ∷ at post (word "slices" ∷ parameter "slice_name" ∷ word "ues" ∷ parameter "imsi" ∷ [])
        post_slice_ue_binding
    ∷ at delete (word "slices" ∷ parameter "slice_name" ∷ word "ues" ∷ parameter "imsi" ∷ [])
        delete_slice_ue_binding
    ∷ at get (word "ues" ∷ parameter "imsi" ∷ []) get_ue
    ∷ at get (word "ues" ∷ []) get_ues
    ∷ at post (word "ues" ∷ []) post_ue
    ∷ at put (word "ues" ∷ parameter "imsi" ∷ []) put_ue
    ∷ at delete (word "ues" ∷ parameter "imsi" ∷ []) delete_ue
    ∷ []
