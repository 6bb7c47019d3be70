-- ===== src/Schema/Tables.antt =====
-- `USER_SCHEMA`, `GROUP_SCHEMA` and `ENTERPRISE_USER_SCHEMA` of src/schema/definitions.rs.
use scim_server.Text.{codes}
use scim_server.Schema.Definitions.{SchemaDefinition, no_attributes, attribute}
use scim_server.Schema.Definitions.Identity
use scim_server.Schema.Definitions.Contacts
use scim_server.Schema.Definitions.Rights
use scim_server.Schema.Definitions.GroupTable
use scim_server.Schema.Definitions.EnterpriseTable

abbrev pub user_schema : SchemaDefinition
user_schema = record {
  id = codes "urn:ietf:params:scim:schemas:core:2.0:User";
  name = codes "User";
  description = codes "User Account";
  attributes = attribute Identity.id (
      attribute Identity.external_id (
        attribute Identity.user_name (
          attribute Identity.name (
            attribute Identity.display_name (
              attribute Identity.nick_name (
                attribute Identity.profile_url (
                  attribute Identity.title (
                    attribute Identity.user_type (
                      attribute Identity.preferred_language (
                        attribute Identity.locale (
                          attribute Identity.timezone (
                            attribute Contacts.emails (
                              attribute Contacts.phone_numbers (
                                attribute Contacts.ims (
                                  attribute Contacts.photos (
                                    attribute Contacts.addresses (
                                      attribute Rights.active (
                                        attribute Rights.password (
                                          attribute Rights.entitlements (
                                            attribute Rights.roles (
                                              attribute Rights.x509_certificates (
                                                attribute Rights.groups (
                                                  attribute Rights.meta
                                                    no_attributes)))))))))))))))))))))));
}

abbrev pub group_schema : SchemaDefinition
group_schema = record {
  id = codes "urn:ietf:params:scim:schemas:core:2.0:Group";
  name = codes "Group";
  description = codes "Group";
  attributes = attribute GroupTable.id (
      attribute GroupTable.external_id (
        attribute GroupTable.display_name
          (attribute GroupTable.members (attribute GroupTable.meta no_attributes))));
}

abbrev pub enterprise_user_schema : SchemaDefinition
enterprise_user_schema = record {
  id = codes "urn:ietf:params:scim:schemas:extension:enterprise:2.0:User";
  name = codes "EnterpriseUser";
  description = codes "Enterprise User Extension";
  attributes = attribute EnterpriseTable.employee_number (
      attribute EnterpriseTable.cost_center (
        attribute EnterpriseTable.organization (
          attribute EnterpriseTable.division (
            attribute EnterpriseTable.department
              (attribute EnterpriseTable.manager no_attributes)))));
}
