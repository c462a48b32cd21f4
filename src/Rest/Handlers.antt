-- ===== src/Rest/Handlers.antt =====
-- The handlers of `RestServer`, src/restserver.cc, by their names.
use nexran.Base.{some}
use nexran.Resource.Json.{Json}
use nexran.Resource.Ue
use nexran.Resource.Slice
use nexran.Resource.NodeB
use nexran.E2ap.State.{Platform}
use nexran.App.Types.{App, nodeb, slice, ue, nodeb_resource, slice_resource, ue_resource}
use nexran.App.Bind.{bind_slice_nodeb, unbind_slice_nodeb, bind_ue_slice, unbind_ue_slice}
use nexran.Rest.Version.{Version, build_version_json}
use nexran.Rest.Reply.{
  Answer, Request, send, finish, done, get_all, get_one, post_one, put_one, delete_one, made,
  handle_app_error,
}

module _ (platform : Platform) (json : Json) (version : Version) where
  unfoldable pub get_version : Request platform json version → App → App × Answer
  unfolding build_version_json
  get_version q app = (app, send 200 (some (build_version_json version)))

  unfoldable pub get_nodebs : Request platform json version → App → App × Answer
  unfolding get_all
  get_nodebs q app = get_all platform json version nodeb_resource app

  unfoldable pub post_nodeb : Request platform json version → App → App × Answer
  unfolding post_one NodeB.create
  post_nodeb q app =
      post_one platform json version
        (made platform json version nodeb (NodeB.create json q.address q.body)) app

  unfoldable pub put_nodeb : Request platform json version → App → App × Answer
  unfolding put_one
  put_nodeb q app = put_one platform json version nodeb_resource q.name q.body app

  unfoldable pub get_nodeb : Request platform json version → App → App × Answer
  unfolding get_one
  get_nodeb q app = get_one platform json version nodeb_resource q.name app

  unfoldable pub delete_nodeb : Request platform json version → App → App × Answer
  unfolding delete_one
  delete_nodeb q app = delete_one platform json version nodeb_resource q.name app

  unfoldable pub post_nodeb_slice_binding : Request platform json version → App → App × Answer
  unfolding bind_slice_nodeb handle_app_error
  post_nodeb_slice_binding q app =
      finish platform json version 400 (done platform json version)
        (bind_slice_nodeb platform q.slice_name q.nodeb_name app)

  unfoldable pub delete_nodeb_slice_binding : Request platform json version → App → App × Answer
  unfolding unbind_slice_nodeb handle_app_error
  delete_nodeb_slice_binding q app =
      finish platform json version 400 (done platform json version)
        (unbind_slice_nodeb platform q.slice_name q.nodeb_name app)

  unfoldable pub get_slices : Request platform json version → App → App × Answer
  unfolding get_all
  get_slices q app = get_all platform json version slice_resource app

  unfoldable pub post_slice : Request platform json version → App → App × Answer
  unfolding post_one Slice.create
  post_slice q app =
      post_one platform json version
        (made platform json version slice (Slice.create json q.address q.body)) app

  unfoldable pub put_slice : Request platform json version → App → App × Answer
  unfolding put_one
  put_slice q app = put_one platform json version slice_resource q.name q.body app

  unfoldable pub get_slice : Request platform json version → App → App × Answer
  unfolding get_one
  get_slice q app = get_one platform json version slice_resource q.name app

  unfoldable pub delete_slice : Request platform json version → App → App × Answer
  unfolding delete_one
  delete_slice q app = delete_one platform json version slice_resource q.name app

  unfoldable pub post_slice_ue_binding : Request platform json version → App → App × Answer
  unfolding bind_ue_slice handle_app_error
  post_slice_ue_binding q app =
      finish platform json version 400 (done platform json version)
        (bind_ue_slice platform q.imsi q.slice_name app)

  unfoldable pub delete_slice_ue_binding : Request platform json version → App → App × Answer
  unfolding unbind_ue_slice handle_app_error
  delete_slice_ue_binding q app =
      finish platform json version 400 (done platform json version)
        (unbind_ue_slice platform q.imsi q.slice_name app)

  unfoldable pub get_ues : Request platform json version → App → App × Answer
  unfolding get_all
  get_ues q app = get_all platform json version ue_resource app

  unfoldable pub post_ue : Request platform json version → App → App × Answer
  unfolding post_one Ue.create
  post_ue q app =
      post_one platform json version
        (made platform json version ue (Ue.create json q.address q.garbage q.body)) app

  unfoldable pub put_ue : Request platform json version → App → App × Answer
  unfolding put_one
  put_ue q app = put_one platform json version ue_resource q.imsi q.body app

  unfoldable pub get_ue : Request platform json version → App → App × Answer
  unfolding get_one
  get_ue q app = get_one platform json version ue_resource q.imsi app

  unfoldable pub delete_ue : Request platform json version → App → App × Answer
  unfolding delete_one
  delete_ue q app = delete_one platform json version ue_resource q.imsi app
