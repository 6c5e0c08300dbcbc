-- ===== src/FileInfo/Adding.antt =====
-- AddFileInfo, RemoveFileInfo and DisposeFileInfoListContents against the list of nodes.
use ncftp.Base.{◌≡◌, ◌≢◌, true, false, none, List, [], ◌∷◌, ◌++◌, arith, ◌==◌}
use ncftp.Links.{Ptr, null, Header, ok}
use ncftp.Links.Chain.{head_or, IsList, SameOutside, not-has_of_free}
use ncftp.Links.Linking.{link_last-append}
use ncftp.Links.Unlinking.{unlink_lem}
use ncftp.Links.Disposal.{Without, dispose-Without}
use ncftp.FileInfo.{
  FileInfo, FileInfoList, Infos, init_file_info_list, add_file_info, remove_file_info,
  dispose_file_info_list,
}

-- AddFileInfo with a new node puts a copy of `fi` behind the other nodes, returns that node, and
-- changes no node outside the new list and nothing else of the list.
pub add_file_info-append :
    (h : Infos) (l : FileInfoList) (xs : List (Ptr × FileInfo)) (lp : Ptr) (fi : FileInfo)
    → IsList h l.links xs
    → lp ≢ null
    → h lp ≡ none
    → (links : Header) × (g : Infos) × (add_file_info lp l fi h
        ≡ ok (lp, record l { links = links }) g)
      × IsList g links (xs ++ (lp, fi) ∷ [])
      × SameOutside (xs ++ (lp, fi) ∷ []) h g
unfolding add_file_info
add_file_info-append h l xs lp fi is n unused =
    let (links, g, run, is', same) =
      link_last-append h l.links xs lp fi is n
        (not-has_of_free h null null lp xs is.chain unused) in
    let ne : (lp == null) ≡ false = ground (arith, n) in (links, g, rw (ne, run), is', same)

-- RemoveFileInfo takes out the node that it is given, frees it, returns the one behind it, and
-- leaves the other nodes in their order and the rest of the list as it was.
pub remove_file_info_lem :
    (h : Infos) (l : FileInfoList) (xs : List (Ptr × FileInfo)) (p : Ptr) (v : FileInfo)
    (ys : List (Ptr × FileInfo))
    → IsList h l.links (xs ++ (p, v) ∷ ys)
    → (links : Header) × (g : Infos) × (remove_file_info l p h
        ≡ ok (head_or null ys, record l { links = links }) g)
      × IsList g links (xs ++ ys)
      × (g p ≡ none)
      × SameOutside (xs ++ (p, v) ∷ ys) h g
unfolding remove_file_info
remove_file_info_lem h l xs p v ys is =
    let (links, g, run, is', gone, same) = unlink_lem h l.links xs p v ys is in
    (links, g, rw run, is', gone, same)

-- DisposeFileInfoListContents frees exactly the nodes of the list, each once, and leaves the list
-- as InitFileInfoList does.
pub dispose_file_info_list_lem :
    (h : Infos) (l : FileInfoList) (xs : List (Ptr × FileInfo))
    → IsList h l.links xs
    → (g : Infos) × (dispose_file_info_list l h ≡ ok init_file_info_list g) × Without xs h g
unfolding dispose_file_info_list
dispose_file_info_list_lem h l xs is =
    let (g, run, gone) = dispose-Without h l.links xs is in (g, rw run, gone)

-- AddFileInfo without a node returns NULL and changes nothing.
pub add_file_info_refused :
    (h : Infos) (l : FileInfoList) (lp : Ptr) (fi : FileInfo)
    → (lp == null) ≡ true
    → add_file_info lp l fi h ≡ ok (null, l) h
unfolding add_file_info
add_file_info_refused h l lp fi e = rw e
