-- ===== src/Schema/Definitions/GroupTable.antt =====
-- `GROUP_SCHEMA` of src/schema/definitions.rs: its attributes.
use scim_server.Common.{true, false}
use scim_server.Text.{codes}
use scim_server.Schema.Definitions.{
  AttributeDefinition, attribute_definition, no_attributes, attribute, string_type, date_time,
  reference, complex_type, read_only, read_write, immutable, always, default, no_uniqueness, server,
}

abbrev pub id : AttributeDefinition
id =
    attribute_definition (codes "id") string_type false "Unique identifier for the Group" true true
      read_only always server no_attributes

abbrev pub external_id : AttributeDefinition
external_id =
    attribute_definition (codes "externalId") string_type false
      "External unique identifier for the Group" false true read_write default no_uniqueness
      no_attributes

abbrev pub display_name : AttributeDefinition
display_name =
    attribute_definition (codes "displayName") string_type false
      "A human-readable name for the Group" true false read_write default server no_attributes

abbrev pub members : AttributeDefinition
members =
    attribute_definition (codes "members") complex_type true "A list of members of the Group" false
      false read_write default no_uniqueness
      (attribute
        (attribute_definition (codes "value") string_type false "Identifier of the member" false
          true immutable default no_uniqueness no_attributes)
        (attribute
          (attribute_definition (codes "$ref") reference false
            "The URI corresponding to the member resource" false true immutable default
            no_uniqueness no_attributes)
          (attribute
            (attribute_definition (codes "type") string_type false
              "A label indicating the type of resource" false false immutable default no_uniqueness
              no_attributes)
            (attribute
              (attribute_definition (codes "display") string_type false
                "A human-readable name for the Group member" false false read_only default
                no_uniqueness no_attributes)
              (no_attributes)))))

abbrev pub meta : AttributeDefinition
meta =
    attribute_definition (codes "meta") complex_type false "Resource metadata" false false read_only
      default no_uniqueness
      (attribute
        (attribute_definition (codes "resourceType") string_type false
          "The name of the resource type of the resource" false true read_only default no_uniqueness
          no_attributes)
        (attribute
          (attribute_definition (codes "created") date_time false
            "The 'DateTime' that the resource was added to the service provider" false false
            read_only default no_uniqueness no_attributes)
          (attribute
            (attribute_definition (codes "lastModified") date_time false
              "The most recent DateTime that the details of this resource were updated" false false
              read_only default no_uniqueness no_attributes)
            (attribute
              (attribute_definition (codes "location") string_type false
                "The URI of the resource being returned" false true read_only default no_uniqueness
                no_attributes)
              (no_attributes)))))
