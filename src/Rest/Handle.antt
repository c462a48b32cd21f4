-- ===== src/Rest/Handle.antt =====
-- The handler that Pistache routes a request to, src/restserver.cc.
use nexran.Resource.Json.{Json}
use nexran.E2ap.State.{Platform}
use nexran.App.Types.{App}
use nexran.Rest.Routes.{Endpoint}
use nexran.Rest.Version.{Version}
use nexran.Rest.Reply.{Answer, Request}
use nexran.Rest.Handlers

module _ (platform : Platform) (json : Json) (version : Version) where
  unfoldable pub handle : Endpoint → Request platform json version → App → App × Answer
  unfolding Handlers.get_version Handlers.get_nodebs Handlers.post_nodeb Handlers.put_nodeb
      Handlers.get_nodeb Handlers.delete_nodeb Handlers.post_nodeb_slice_binding
      Handlers.delete_nodeb_slice_binding Handlers.get_slices Handlers.post_slice Handlers.put_slice
      Handlers.get_slice Handlers.delete_slice Handlers.post_slice_ue_binding
      Handlers.delete_slice_ue_binding Handlers.get_ues Handlers.post_ue Handlers.put_ue
      Handlers.get_ue Handlers.delete_ue
  handle Endpoint.get_version q app = Handlers.get_version platform json version q app
  handle Endpoint.get_nodebs q app = Handlers.get_nodebs platform json version q app
  handle Endpoint.post_nodeb q app = Handlers.post_nodeb platform json version q app
  handle Endpoint.put_nodeb q app = Handlers.put_nodeb platform json version q app
  handle Endpoint.get_nodeb q app = Handlers.get_nodeb platform json version q app
  handle Endpoint.delete_nodeb q app = Handlers.delete_nodeb platform json version q app
  handle Endpoint.post_nodeb_slice_binding q app =
      Handlers.post_nodeb_slice_binding platform json version q app
  handle Endpoint.delete_nodeb_slice_binding q app =
      Handlers.delete_nodeb_slice_binding platform json version q app
  handle Endpoint.get_slices q app = Handlers.get_slices platform json version q app
  handle Endpoint.post_slice q app = Handlers.post_slice platform json version q app
  handle Endpoint.put_slice q app = Handlers.put_slice platform json version q app
  handle Endpoint.get_slice q app = Handlers.get_slice platform json version q app
  handle Endpoint.delete_slice q app = Handlers.delete_slice platform json version q app
  handle Endpoint.post_slice_ue_binding q app =
      Handlers.post_slice_ue_binding platform json version q app
  handle Endpoint.delete_slice_ue_binding q app =
      Handlers.delete_slice_ue_binding platform json version q app
  handle Endpoint.get_ues q app = Handlers.get_ues platform json version q app
  handle Endpoint.post_ue q app = Handlers.post_ue platform json version q app
  handle Endpoint.put_ue q app = Handlers.put_ue platform json version q app
  handle Endpoint.get_ue q app = Handlers.get_ue platform json version q app
  handle Endpoint.delete_ue q app = Handlers.delete_ue platform json version q app
